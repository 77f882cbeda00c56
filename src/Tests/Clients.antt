-- ===== src/Tests/Clients.antt =====
-- A client whose commands have at most three bytes.
use rids.Prelude.{ℕ, ◌≡◌, refl, true, List, [], ◌∷◌, arith}
use rids.Conn.{Peer, Session, bytes, msg_cmd_too_long, handle_bytes, data_event_handle}
use rids.Conn.Lines.{Fits, data_event_handle-Fits, handle_bytes_too_long}

-- The program keeps the commands it was given, the last one first, and answers each with "ok".
abbrev peer : Peer (List (List ℕ))
peer = record {
  msg_in_len_max = 3;
  prompt = b'>' ∷ [];
  msg_handle = λ app command. (command ∷ app, b'o' ∷ b'k' ∷ []);
  can_write = λ sent. true;
}

abbrev fresh : Session (List (List ℕ))
fresh = record { msg_in = []; app = []; sent = [] }

data_event_handle-Fits_example :
    Fits peer (data_event_handle peer (bytes (b'a' ∷ b'b' ∷ b'c' ∷ b'd' ∷ b'e' ∷ [])) fresh).0
data_event_handle-Fits_example =
    data_event_handle-Fits peer (bytes (b'a' ∷ b'b' ∷ b'c' ∷ b'd' ∷ b'e' ∷ [])) fresh (omega arith)

handle_bytes_too_long_example :
    handle_bytes peer (b'a' ∷ b'b' ∷ b'c' ∷ b'd' ∷ b'e' ∷ 10 ∷ []) fresh
    ≡ handle_bytes peer (b'e' ∷ 10 ∷ []) (record fresh { sent = msg_cmd_too_long ∷ [] })
handle_bytes_too_long_example =
    handle_bytes_too_long peer (b'a' ∷ b'b' ∷ b'c' ∷ []) b'd' (b'e' ∷ 10 ∷ []) fresh refl
      (ground arith) (omega arith) refl refl
