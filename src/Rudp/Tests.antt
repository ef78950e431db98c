-- ===== src/Rudp/Tests.antt =====
-- The theorems at concrete headers and connections, over a directory with one file.
use cprogramming.Prelude.{
  ℕ, ◌+◌, ◌*◌, ◌≡◌, ◌≢◌, refl, arith, Bool, true, false, Option, none, some, List, [], ◌∷◌, take,
  drop, replicate,
}
use cprogramming.Rudp.Hdr.{
  RHdr, computer_chksum, carry_around_add, computer_loop, rhdr_computer_internal,
  rhdr_computer_chksum, valid_chksum, flag_validate, flag_check, flag_confirm, flag_set, flag_unset,
  encrypt, decrypt, compute_crypt, powr, powr_loop,
}
use cprogramming.Rudp.Hdr.Crypt.{decrypt-encrypt}
use cprogramming.Rudp.Hdr.Sum.{valid_chksum-pair}
use cprogramming.Rudp.Process.{
  Files, FilesLaws, rprocess_request, process_last, process_converted, answer_chksum,
  answer_numbers, answer_flags, flags_after, serve_get, get_from, append_packet, data_packet,
  snd_pkt, ret_pkt, with_chksum, invalid_nak, convert_bytes,
}
use cprogramming.Rudp.Serve.{
  RMsg, free, sending, rhdr_siz, insert_msg, rhandle_port, rhandle_retransmit, csock_send,
  new_state, handle_msg, hdr_of, after_answer,
}
use cprogramming.Rudp.Serve.Runs.{Reach, first, Sends, csock_send_lem}
use cprogramming.Rudp.Serve.Short.{rhandle_port_short, rhandle_port_again}
use cprogramming.Rudp.Queue.{RState, rstate_init, rhead_append, rhead_peak, rhdr_init, empty_buf}
use cprogramming.Rudp.Client.{Client, start}
use cprogramming.Rudp.Client.Transfer.{exchanges, over, pages}
use cprogramming.Rudp.Client.Whole.{joined, exchanges_lem}

abbrev hello : List ℕ
hello = b'h' ∷ b'e' ∷ b'l' ∷ b'l' ∷ b'o' ∷ 0 ∷ []

hello_crypt : encrypt hello ≢ hello
unfolding encrypt rhdr_computer_internal computer_loop compute_crypt powr powr_loop
hello_crypt = λ e. cc

decrypt-encrypt_example : decrypt (encrypt hello) ≡ hello
decrypt-encrypt_example = decrypt-encrypt hello (omega arith)

-- The header of `hello`, with its check sum
abbrev summed : List ℕ → RHdr
summed msg = record {
  seqn = 1;
  ackn = 0;
  chks = rhdr_computer_chksum hello;
  flgv = 0x2402;
  msg = msg;
}

hello_valid : valid_chksum (summed hello) ≡ true
unfolding valid_chksum rhdr_computer_chksum rhdr_computer_internal computer_loop computer_chksum
    carry_around_add flag_validate
hello_valid = refl

valid_chksum-pair_example : (◌≡◌ {A = ℕ} b'l' b'l') × (◌≡◌ {A = ℕ} b'l' b'l')
valid_chksum-pair_example =
    valid_chksum-pair (summed hello) (b'h' ∷ b'e' ∷ []) (b'o' ∷ 0 ∷ []) b'l' b'l' b'l' b'l'
      (omega arith) (omega arith) (omega arith) (omega arith) hello_valid hello_valid

-- One file, whatever its name; a file that is open is what is left of it.
abbrev one_file : List ℕ → Files
one_file content = record {
  File = List ℕ;
  stat = λ name. true;
  fopen = λ name. some content;
  fseek = λ f n. drop n f;
  feof = λ f. false;
  fread = λ f n. take n f;
  ntohs = λ n. n;
  htons = λ n. n;
  word = λ a b. a + 256 * b;
}

some_value : {A : Type 0} {a b : A} → some a ≡ some b → b ≡ a
some_value e = cc

abbrev one_file_laws : (content : List ℕ) → FilesLaws (one_file content)
one_file_laws content = record {
  contents = λ f. f;
  fread-fopen = λ name f n e. refl;
  fread-fseek = λ f k n. refl;
  feof-fseek = λ f k. refl;
  ntohs-htons = λ n. refl;
}

abbrev short : List ℕ
short = 1 ∷ 0 ∷ []

rhandle_port_short_example :
    (m : RMsg) × (rhandle_port (one_file hello) true none short 7 ≡ some (m, true))
    × ((c : Bool) (more : List ℕ) (later : ℕ)
        → rhandle_port (one_file hello) c (some m) more later ≡ none)
    × ((c : Bool) (later : ℕ) → rhandle_retransmit c later m ≡ m)
rhandle_port_short_example = rhandle_port_short (one_file hello) true short 7 (omega arith)

-- A request for the file: GET and the version, in a whole packet
abbrev get_bytes : List ℕ
get_bytes = 1 ∷ 0 ∷ 0 ∷ 0 ∷ 0 ∷ 0 ∷ 2 ∷ 0x20 ∷ replicate 1464 0

abbrev asked : RMsg
asked = (handle_msg (one_file hello) true 0 (insert_msg get_bytes 7)).0

asked-Reach : Reach (one_file hello) (one_file_laws hello) asked
unfolding rhandle_port
asked-Reach =
    first true get_bytes 7 {r = (handle_msg (one_file hello) true 0 (insert_msg get_bytes 7)).1}
      refl

asked_sending : asked.lock ≡ sending
unfolding handle_msg insert_msg hdr_of rprocess_request process_last process_converted answer_chksum
    answer_numbers answer_flags flags_after serve_get get_from append_packet data_packet snd_pkt
    ret_pkt with_chksum invalid_nak flag_validate flag_check flag_confirm flag_set flag_unset
    convert_bytes new_state rstate_init rhead_append rhead_peak rhdr_init after_answer empty_buf
asked_sending = refl

csock_send_lem_example :
    (m' : RMsg) × (out : Option RHdr) × (csock_send (one_file hello) asked ≡ some (m', out))
    × Sends (one_file hello) (one_file_laws hello) asked out
csock_send_lem_example =
    csock_send_lem (one_file hello) (one_file_laws hello) asked asked-Reach asked_sending

-- A connection after a whole packet
abbrev after_packet : RMsg
after_packet = record {
  buf = get_bytes;
  written = rhdr_siz;
  left = 0;
  his_stamp = 7;
  mys_stamp = 7;
  state = new_state;
  lock = free;
  ona = true;
  clr = false;
  msg_pr = 1;
  bad_pr = 0;
}

rhandle_port_again_example :
    rhandle_port (one_file hello) true (some after_packet) short 9
    ≡ rhandle_port (one_file hello) true (some after_packet) get_bytes 9
rhandle_port_again_example =
    rhandle_port_again (one_file hello) true after_packet short 9 refl refl refl (omega arith)

-- A file of two packets
abbrev two_pages : List ℕ
two_pages = replicate 2000 b'a'

exchanges_lem_example :
    (c : Client) × (s : RState) × (exchanges
        (one_file two_pages)
        4
        (start false false hello)
        new_state
      ≡ over c s)
    × (c.req ≡ empty_buf ∷ pages two_pages 2)
    × (joined two_pages 2 ≡ two_pages)
exchanges_lem_example =
    exchanges_lem (one_file two_pages) (one_file_laws two_pages) hello two_pages refl refl
      (omega arith)
