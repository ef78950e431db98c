-- ===== src/Rudp/Serve/Sends.antt =====
-- RHandleServ.h: what holds of a connection after each of its operations.
use cprogramming.Prelude.{
  ℕ, ◌+◌, ◌-◌, ◌≡◌, refl, sym, subst, subst₂, arith, ◌⊎◌, inl, inr, Bool, true, false, ◌&&◌, not,
  Option, none, some, List, if◌then◌else◌, Bool-cases, ◌==◌, leb,
}
use cprogramming.Rudp.Queue.{curr, rstate_init, rstate_destroy}
use cprogramming.Rudp.Process.{
  Files, FilesLaws, Answer, refused, send, bad_chk, worse_chk, is_none, rprocess_request,
}
use cprogramming.Rudp.Process.Packets.{Serves}
use cprogramming.Rudp.Process.Sent.{rprocess_request-Serves}
use cprogramming.Rudp.Process.Answers.{HasPacket, rprocess_request-HasPacket}
use cprogramming.Rudp.Serve.{
  RMsg, kept, is_free, new_state, insert_msg, fill_msg, again, update_msg, hdr_of, receive,
  after_answer, start_thread, handle_msg, rhandle_port, rhandle_retransmit, rhdr_siz, u32,
  max_timeout, dead_timeout,
}

-- A connection that is on has a packet to send, unless its lock is lost.
abbrev pub IsReady : RMsg → Type 0
IsReady m = (m.ona ≡ false) ⊎ (m.lock ≡ kept) ⊎ (is_none (curr m.state) ≡ false)

same_value : {A : Type 0} {a b : A} → some a ≡ some b → a ≡ b
same_value e = cc

module _ (fs : Files) (laws : FilesLaws fs) where
  -- The packets are those of one file, a state that was taken down has nothing, and IsReady.
  abbrev pub IsServing : RMsg → Type 0
  IsServing m = Serves fs laws m.state × ((m.clr ≡ false) ⊎ (m.state.ack ≡ 0)) × IsReady m

  insert_msg-Serves :
      (bytes : List ℕ) (now : ℕ)
      → Serves fs laws (insert_msg bytes now).state × ((insert_msg bytes now).clr ≡ false)
  unfolding insert_msg new_state rstate_init
  insert_msg-Serves bytes now = (refl, refl)

  fill_msg-state :
      (m : RMsg) (bytes : List ℕ)
      → ((fill_msg m bytes).state ≡ m.state) × ((fill_msg m bytes).clr ≡ m.clr)
  unfolding fill_msg
  fill_msg-state m bytes = ground arith

  again-Serves :
      (m : RMsg)
      → Serves fs laws m.state
      → (m.clr ≡ false) ⊎ (m.state.ack ≡ 0)
      → Serves fs laws (again m).state × ((again m).clr ≡ false)
  unfolding again rstate_init
  again-Serves m p (inl off) = (simp off p, simp off refl)
  again-Serves m p (inr zero) = elim (Bool-cases m.clr) [
    | inl cleared ↦ (simp cleared zero, simp cleared refl)
    | inr off ↦ (simp off p, simp off refl)
  ]

  -- The state after rprocess_request, with its answer
  after_answer-IsServing :
      (m : RMsg) (old_time : ℕ) (answer : Answer) (created : Bool)
      → Serves fs laws m.state
      → m.clr ≡ false
      → m.lock ≡ kept
      → HasPacket (m.state, answer)
      → let r = after_answer m old_time answer in
        IsServing (if r.2 then start_thread created r.0 else r.0)
  unfolding after_answer
  after_answer-IsServing m old_time bad_chk created p off lock has = (p, inl off, ground arith)
  after_answer-IsServing m old_time worse_chk created p off lock has = (p, inl refl, inl refl)
  after_answer-IsServing m old_time refused true p off lock has =
      elim (Bool-cases (is_none (curr m.state))) [
        | inl nothing ↦ rw nothing (p, inl refl, inl refl)
        | inr packet ↦ rw packet (p, inl off, inr (inr packet))
      ]
  after_answer-IsServing m old_time refused false p off lock has =
      elim (Bool-cases (is_none (curr m.state))) [
        | inl nothing ↦ rw nothing (p, inl refl, inl refl)
        | inr packet ↦ rw packet (p, inl off, inr (inr packet))
      ]
  after_answer-IsServing m old_time send true p off lock has = (p, inl off, ground arith)
  after_answer-IsServing m old_time send false p off lock has = (p, inl off, ground arith)

  -- A whole message is answered; with a part of one the lock is lost.
  handle_msg-IsServing :
      (created : Bool) (old_time : ℕ) (m : RMsg)
      → Serves fs laws m.state
      → m.clr ≡ false
      → IsServing (handle_msg fs created old_time m).0
  unfolding handle_msg
  handle_msg-IsServing created old_time m p off =
      elim (Bool-cases (m.left == 0 && m.written == rhdr_siz)) [
        | inr part ↦ rw part (p, inl off, inr (inl refl))
        | inl whole ↦
            let received = receive m.state (hdr_of fs m.buf) in
            rw whole (
              after_answer-IsServing
                (record m { lock = kept; state = (rprocess_request fs received).0 }) old_time
                (rprocess_request fs received).1 created
                (rprocess_request-Serves fs laws received p) off refl
                (rprocess_request-HasPacket fs received))
      ]

  update_msg-Serves :
      (m : RMsg) (bytes : List ℕ) (now : ℕ)
      → IsServing m
      → Serves fs laws (update_msg m bytes now).state × ((update_msg m bytes now).clr ≡ false)
  unfolding update_msg
  update_msg-Serves m bytes now is =
      again-Serves
        (record (fill_msg m bytes) {
          msg_pr = u32 (m.msg_pr + 1);
          his_stamp = now;
          mys_stamp = now;
        })
        (subst (λ s. Serves fs laws s) (sym (fill_msg-state m bytes).0) is.0)
        (subst₂ (λ s (c : Bool). (c ≡ false) ⊎ (s.ack ≡ 0)) (sym (fill_msg-state m bytes).0)
          (sym (fill_msg-state m bytes).1) is.1)

  pub rhandle_port-IsServing :
      (created : Bool) (o : Option RMsg) (bytes : List ℕ) (now : ℕ) {m' : RMsg} {r : Bool}
      → ((m : RMsg) → o ≡ some m → IsServing m)
      → rhandle_port fs created o bytes now ≡ some (m', r)
      → IsServing m'
  unfolding rhandle_port
  rhandle_port-IsServing created none bytes now {m'} is e =
      let (p, off) = insert_msg-Serves bytes now in
      subst IsServing made (handle_msg-IsServing created 0 (insert_msg bytes now) p off)
    where
      made : (handle_msg fs created 0 (insert_msg bytes now)).0 ≡ m'
      made = ground arith
  rhandle_port-IsServing created (some m) bytes now {m'} is e =
      let (p, off) = update_msg-Serves m bytes now (is m refl) in
      subst IsServing made (handle_msg-IsServing created m.his_stamp (update_msg m bytes now) p off)
    where
      made : (handle_msg fs created m.his_stamp (update_msg m bytes now)).0 ≡ m'
      made = ground arith

  start_thread-IsServing :
      (created : Bool) (m : RMsg)
      → Serves fs laws m.state
      → (m.clr ≡ false) ⊎ (m.state.ack ≡ 0)
      → is_none (curr m.state) ≡ false
      → IsServing (start_thread created m)
  start_thread-IsServing true m p c packet = (p, c, inr (inr packet))
  start_thread-IsServing false m p c packet = (p, c, inr (inr packet))

  pub rhandle_retransmit-IsServing :
      (created : Bool) (now : ℕ) (m : RMsg)
      → IsServing m
      → IsServing (rhandle_retransmit created now m)
  unfolding rhandle_retransmit rstate_destroy
  rhandle_retransmit-IsServing created now m is =
      elim (Bool-cases (not m.ona && not m.clr && is_free m.lock)) [
        | inl down ↦ simp down (refl, inr refl, inl refl)
        | inr up ↦
            elim (Bool-cases
              (leb max_timeout (now - m.mys_stamp) && m.ona && not m.clr && is_free m.lock)) [
                | inr early ↦ simp (up, early) is
                | inl late ↦
                    simp (up, late)
                      (start_thread-IsServing created
                        (record m {
                          ona = if leb dead_timeout (now - m.his_stamp) then false else m.ona;
                          mys_stamp = now;
                          lock = kept;
                        })
                        is.0 is.1 (ground arith))
              ]
      ]
