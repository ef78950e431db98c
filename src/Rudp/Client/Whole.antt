-- ===== src/Rudp/Client/Whole.antt =====
-- RClient.c with RProcess.h: a whole file goes from the server to the client.
use cprogramming.Prelude.{
  ℕ, zero, suc, ◌+◌, ◌-◌, ◌*◌, ◌/◌, ◌≤◌, ◌<◌, ◌≡◌, ◌≢◌, refl, sym, ◌∙◌, ap, subst, arith, true,
  false, some, List, [], ◌∷◌, ◌++◌, ◌==◌, if◌then◌else◌, length, take, drop, overlay, length-take,
}
use cprogramming.Rudp.Hdr.{RHdr, msg_siz, flag_check, flag_validate, flag_confirm, flag_set}
use cprogramming.Rudp.Queue.{
  empty_buf, rhdr_init, rhead_append, rhead_peak, rstate_init, RState, entry_puts,
}
use cprogramming.Rudp.Process.{
  Files, FilesLaws, send, fname_of, process_converted, answer_chksum, answer_numbers, answer_flags,
  flags_after, serve_get, get_from, append_packet, data_packet, snd_pkt, ret_pkt, with_chksum,
}
use cprogramming.Rudp.Process.Packets.{block}
use cprogramming.Rudp.Serve.{new_state}
use cprogramming.Rudp.Client.{Client, start}
use cprogramming.Rudp.Client.Transfer.{
  Round, over, again, exchange, exchanges, server, client, request, ack_of, data_of, pages,
}
use cprogramming.Rudp.Client.Rounds.{
  round_of, answered_lem, round_data, round_fin, round_end, read_data,
}

module _ {ℓ} {A : Type ℓ} where
  length-drop : (k : ℕ) (xs : List A) → length (drop k xs) ≡ length xs - k
  length-drop zero xs = omega arith
  length-drop (suc k) [] = omega arith
  length-drop (suc k) (x ∷ xs) = omega (arith, length-drop k xs)

  drop_all : (k : ℕ) (xs : List A) → length xs ≤ k → drop k xs ≡ []
  drop_all zero [] h = refl
  drop_all zero (x ∷ xs) h = absurd (omega arith)
  drop_all (suc k) [] h = refl
  drop_all (suc k) (x ∷ xs) h = drop_all k xs (omega arith)

  take_all : (k : ℕ) (xs : List A) → length xs ≤ k → take k xs ≡ xs
  take_all zero [] h = refl
  take_all zero (x ∷ xs) h = absurd (omega arith)
  take_all (suc k) [] h = refl
  take_all (suc k) (x ∷ xs) h = ap (λ r. x ∷ r) (take_all k xs (omega arith))

  take_nil : (n : ℕ) → take {A = A} n [] ≡ []
  take_nil zero = refl
  take_nil (suc n) = refl

  take_more : (k n : ℕ) (xs : List A) → take k xs ++ take n (drop k xs) ≡ take (k + n) xs
  take_more zero n xs = ap (λ m. take m xs) (omega arith)
  take_more (suc k) n [] = take_nil n ∙ sym (take_nil (suc k + n))
  take_more (suc k) n (x ∷ xs) =
      ap (λ r. x ∷ r) (take_more k n xs) ∙ ap (λ m. take m (x ∷ xs)) (suc_plus k n)
    where
      suc_plus : (k n : ℕ) → suc (k + n) ≡ suc k + n
      suc_plus k n = omega arith

block-nil : (file : List ℕ) (k : ℕ) → length file ≤ k * msg_siz → block file k ≡ []
block-nil file k h = ap (take msg_siz) (drop_all (k * msg_siz) file h)

block-more : (file : List ℕ) (k : ℕ) → k * msg_siz < length file → block file k ≢ []
block-more file k h e = absurd (
    omega (
      arith,
      ap length e,
      length-take msg_siz (drop (k * msg_siz) file),
      length-drop (k * msg_siz) file,
    ))

-- How many packets a file takes: one at least.
abbrev pub packet_count : List ℕ → ℕ
packet_count file = if length file == 0 then 1 else (length file + 1463) / msg_siz

-- The first blocks, put together
abbrev pub joined : List ℕ → ℕ → List ℕ
joined file zero = []
joined file (suc n) = joined file n ++ block file n

joined-take : (file : List ℕ) (n : ℕ) → joined file n ≡ take (n * msg_siz) file
joined-take file zero = refl
joined-take file (suc n) =
    ap (λ b. b ++ block file n) (joined-take file n)
    ∙ take_more (n * msg_siz) msg_siz file
    ∙ ap (λ m. take m file) (omega arith)

joined_all : (file : List ℕ) (n : ℕ) → length file ≤ n * msg_siz → joined file n ≡ file
joined_all file n h = joined-take file n ∙ take_all (n * msg_siz) file h

exchanges-again :
    (fs : Files) (n : ℕ) (c c' : Client) (s s' : RState)
    → exchange fs c s ≡ again c' s'
    → exchanges fs (suc n) c s ≡ exchanges fs n c' s'
unfolding exchanges
exchanges-again fs n c c' s s' e = rw (exchanges, e)

exchanges_over :
    (fs : Files) (n : ℕ) (c c' : Client) (s s' : RState)
    → exchange fs c s ≡ over c' s'
    → exchanges fs (suc n) c s ≡ over c' s'
unfolding exchanges
exchanges_over fs n c c' s s' e = rw (exchanges, e)

start_lem : (name : List ℕ) → start false false name ≡ client (request name ∷ []) [] 1 []
unfolding start entry_puts flag_set rhead_append rhdr_init
start_lem name = refl

module _ (fs : Files) (laws : FilesLaws fs) (name : List ℕ) (f : fs.File)
    (there : fs.stat (fname_of (request name).msg) ≡ true)
    (opens : fs.fopen (fname_of (request name).msg) ≡ some f) where
  -- The client has all of the first `n` blocks, and then the empty message of the end.
  abbrev Delivers : Round → ℕ → Type 0
  Delivers r n =
      (c : Client) × (s : RState) × (r ≡ over c s) × (c.req ≡ empty_buf ∷ pages (laws.contents f) n)

  process_get :
      process_converted fs (record new_state { his = request name ∷ new_state.his }) (request name)
      ≡ (
        server (data_of 1 (block (laws.contents f) 0) ∷ []) (request name ∷ []) (request name) 1,
        send,
      )
  unfolding process_converted answer_chksum answer_numbers answer_flags flags_after serve_get
      get_from append_packet data_packet snd_pkt ret_pkt with_chksum flag_check flag_validate
      flag_confirm flag_set new_state rstate_init rhead_append rhead_peak rhdr_init
  process_get = rw (there, opens, laws.fread-fopen _ f msg_siz opens)

  deliver_from :
      (left k n : ℕ) (e : RHdr) (q his cq ch : List RHdr)
      → e.seqn ≡ k
      → k + left ≡ n
      → suc (suc n) < 65535
      → ((j : ℕ) → j < n → 0 < j → block (laws.contents f) j ≢ [])
      → block (laws.contents f) n ≡ []
      → 0 < k
      → Delivers
          (exchanges fs
            (suc (suc left))
            (client (ack_of k ∷ cq) ch (suc k) (pages (laws.contents f) k))
            (server (e ∷ q) his (request name) k))
          n
  deliver_from zero k n e q his cq ch number all small more at_end positive =
      let same : n ≡ k = omega arith in
      let fin =
        round_fin fs laws (request name) f there opens e q his cq ch k (pages (laws.contents f) k)
          number (omega arith) (subst (λ m. block (laws.contents f) m ≡ []) same at_end) in
      let end =
        round_end fs laws (request name) f there opens (e ∷ q) (ack_of k ∷ his) (ack_of k ∷ cq) _
          (suc k) (empty_buf ∷ pages (laws.contents f) k) (omega arith) in
      (
        _,
        _,
        exchanges-again fs 1 _ _ _ _ fin ∙ exchanges_over fs 0 _ _ _ _ end,
        ap (λ m. empty_buf ∷ pages (laws.contents f) m) (sym same),
      )
  deliver_from (suc left) k n e q his cq ch number all small more at_end positive =
      let file = laws.contents f in
      let first =
        round_data fs laws (request name) f there opens e q his cq ch k (pages file k) number
          (omega arith) (more k (omega arith) positive) in
      let (c, s, ends, reads) =
        deliver_from left (suc k) n (data_of (suc k) (block file k)) (e ∷ q) (ack_of k ∷ his)
          (ack_of k ∷ cq) (data_of (suc k) (block file k) ∷ ch) refl (omega arith) small more at_end
          (omega arith) in
      (c, s, exchanges-again fs (suc (suc left)) _ _ _ _ first ∙ ends, reads)

  first_round :
      exchange fs (start false false name) new_state
      ≡ again
          (client
            (ack_of 1 ∷ request name ∷ [])
            (data_of 1 (block (laws.contents f) 0) ∷ [])
            2
            (pages (laws.contents f) 1))
          (server (data_of 1 (block (laws.contents f) 0) ∷ []) (request name ∷ []) (request name) 1)
  first_round =
      let c = client (request name ∷ []) [] 1 [] in
      let answer = data_of 1 (block (laws.contents f) 0) in
      ap (λ c. exchange fs c new_state) (start_lem name)
      ∙ round_of fs laws (request name) f there opens c (request name) [] new_state _ send refl refl
          process_get
      ∙ (answered_lem fs laws (request name) f there opens c answer [] (request name ∷ []) 1 _ (
          read_data (request name) [] [] 0 [] (overlay (block (laws.contents f) 0) empty_buf) refl
            (omega arith))).0

  -- Where nothing is lost and the client behaves, a file of at most 65532 packets that the request names
  -- is delivered: the exchange ends, after two rounds more than the file has packets (one for each 1464
  -- bytes begun, and one for an empty file). The messages that the client has printed are the blocks of
  -- the file in order, each in a message of zeros, and the empty message of the end; and the blocks put
  -- together are the file.
  pub exchanges_lem :
      length (laws.contents f) ≤ 65532 * msg_siz
      → let n = packet_count (laws.contents f) in
        (c : Client) × (s : RState) × (exchanges fs (suc (suc n)) (start false false name) new_state
          ≡ over c s)
        × (c.req ≡ empty_buf ∷ pages (laws.contents f) n)
        × (joined (laws.contents f) n ≡ laws.contents f)
  exchanges_lem fits =
      let file = laws.contents f in
      let n = packet_count file in
      let size : length file ≤ n * msg_siz = ground arith in
      let some_packet : 0 < n = ground arith in
      let small : suc (suc n) < 65535 = ground arith in
      let same : n ≡ suc (n - 1) = omega arith in
      let (c, s, ends, reads) =
        deliver_from (n - 1) 1 n (data_of 1 (block file 0)) [] (request name ∷ [])
          (request name ∷ []) (data_of 1 (block file 0) ∷ []) refl (omega arith) small
          (λ j lt positive. block-more file j (ground arith)) (block-nil file n size)
          (omega arith) in
      (
        c,
        s,
        ap (λ m. exchanges fs (suc (suc m)) (start false false name) new_state) same
            ∙ exchanges-again fs (suc (suc (n - 1))) _ _ _ _ first_round
            ∙ ends,
        reads,
        joined_all file n size,
      )
