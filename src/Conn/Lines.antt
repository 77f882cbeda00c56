-- ===== src/Conn/Lines.antt =====
-- The lines of a client as commands.
use mathlib.Core.List.{append-nil, append_assoc}
use rids.Prelude.{
  ℕ, ◌+◌, ◌≤◌, ◌≡◌, ◌≢◌, inl, inr, refl, ◌∙◌, Bool, true, false, List, [], ◌∷◌, ◌++◌, ltb, ◌==◌,
  length, length-append, arith, All, Bool-cases,
}
use rids.Conn.{
  Peer, Session, Input, would_block, broken, bytes, msg_cmd_too_long, write_then, reply,
  handle_byte, handle_bytes, and_then, data_event_handle,
}

module _ {S : Type 0} (peer : Peer S) where
  abbrev pub Fits : Session S → Type 0
  Fits st = length st.msg_in ≤ peer.msg_in_len_max

  write_then-Fits :
      (text : List ℕ) (st next : Session S)
      → Fits st
      → Fits next
      → Fits (write_then peer text st next).0
  write_then-Fits text st next h k = elim (Bool-cases (peer.can_write st.sent)) [
    | inl e ↦ rw e k
    | inr e ↦ rw e h
  ]

  reply-Fits : (out : List ℕ) (st : Session S) → Fits st → Fits (reply peer out st).0
  reply-Fits [] st h = omega arith
  reply-Fits (c ∷ out) st h =
      write_then-Fits (c ∷ out) st (record st { msg_in = [] }) h (omega arith)

  handle_byte-Fits : (c : ℕ) (st : Session S) → Fits st → Fits (handle_byte peer c st).0
  unfolding handle_byte
  handle_byte-Fits c st h = elim (Bool-cases (c == 10)) [
    | inl e ↦ rw e (
        reply-Fits (peer.msg_handle st.app st.msg_in).1
          (record st { app = (peer.msg_handle st.app st.msg_in).0 }) h)
    | inr e ↦ elim (Bool-cases (ltb (length st.msg_in) peer.msg_in_len_max)) [
      | inl l ↦ rw (e, l) (ground (arith, length-append st.msg_in (c ∷ [])))
      | inr l ↦
          rw (e, l)
            (write_then-Fits msg_cmd_too_long st (record st { msg_in = [] }) h (omega arith))
    ]
  ]

  and_then-Fits :
      (r : Session S × Bool) (f : Session S → Session S × Bool)
      → Fits r.0
      → ((st : Session S) → Fits st → Fits (f st).0)
      → Fits (and_then peer r f).0
  and_then-Fits (st, true) f h k = k st h
  and_then-Fits (st, false) f h k = h

  handle_bytes-Fits : (buf : List ℕ) (st : Session S) → Fits st → Fits (handle_bytes peer buf st).0
  unfolding handle_bytes
  handle_bytes-Fits [] st h = h
  handle_bytes-Fits (c ∷ buf) st h =
      and_then-Fits (handle_byte peer c st) (handle_bytes peer buf) (handle_byte-Fits c st h)
        (λ st' h'. handle_bytes-Fits buf st' h')

  -- Whatever is read, handled and written, `msg_in` never holds more than `msg_in_len_max` bytes, so
  -- the final NUL of a command fits the array too.
  pub data_event_handle-Fits :
      (input : Input) (st : Session S) → Fits st → Fits (data_event_handle peer input st).0
  unfolding data_event_handle
  data_event_handle-Fits would_block st h = h
  data_event_handle-Fits broken st h = h
  data_event_handle-Fits (bytes []) st h = h
  data_event_handle-Fits (bytes (c ∷ buf)) st h =
      and_then-Fits (handle_bytes peer (c ∷ buf) st) (λ st'. write_then peer peer.prompt st' st')
        (handle_bytes-Fits (c ∷ buf) st h) (λ st' h'. write_then-Fits peer.prompt st' st' h' h')

  and_then-append :
      (a b : List ℕ) (r : Session S × Bool)
      → ((st : Session S)
          → handle_bytes peer (a ++ b) st
            ≡ and_then peer (handle_bytes peer a st) (handle_bytes peer b))
      → and_then peer r (handle_bytes peer (a ++ b))
        ≡ and_then peer (and_then peer r (handle_bytes peer a)) (handle_bytes peer b)
  and_then-append a b (st, true) h = h st
  and_then-append a b (st, false) h = refl

  -- The loop over `a ++ b` is the loop over `a` and then, unless that has failed, the one over `b`.
  handle_bytes-append :
      (a b : List ℕ) (st : Session S)
      → handle_bytes peer (a ++ b) st ≡ and_then peer (handle_bytes peer a st) (handle_bytes peer b)
  unfolding handle_bytes
  handle_bytes-append [] b st = refl
  handle_bytes-append (c ∷ a) b st =
      and_then-append a b (handle_byte peer c st) (handle_bytes-append a b)

  -- Bytes of a line that fit are collected.
  handle_bytes-collects :
      (line : List ℕ) (st : Session S)
      → All (λ c. c ≢ 10) line
      → length st.msg_in + length line ≤ peer.msg_in_len_max
      → handle_bytes peer line st ≡ (record st { msg_in = st.msg_in ++ line }, true)
  unfolding handle_bytes handle_byte
  handle_bytes-collects [] st n h = rw (append-nil st.msg_in) refl
  handle_bytes-collects (c ∷ line) st n h =
      let e : (c == 10) ≡ false = ground (arith, n.0) in
      let l : ltb (length st.msg_in) peer.msg_in_len_max ≡ true = ground arith in
      rw (e, l)
        (handle_bytes-collects line (record st { msg_in = st.msg_in ++ c ∷ [] }) n.1
            (omega (arith, length-append st.msg_in (c ∷ [])))
          ∙ rw (append_assoc st.msg_in (c ∷ []) line) refl)

  -- Of a line that is too long, the first bytes and the one that does not fit are dropped with a
  -- message to the client; the rest of this line is read as the beginning of the next command.
  pub handle_bytes_too_long :
      (line : List ℕ) (c : ℕ) (rest : List ℕ) (st : Session S)
      → st.msg_in ≡ []
      → All (λ c. c ≢ 10) line
      → c ≢ 10
      → length line ≡ peer.msg_in_len_max
      → peer.can_write st.sent ≡ true
      → handle_bytes peer (line ++ c ∷ rest) st
        ≡ handle_bytes peer rest (record st { sent = st.sent ++ msg_cmd_too_long ∷ [] })
  unfolding handle_bytes handle_byte
  handle_bytes_too_long line c rest st empty n d h w =
      let e : (c == 10) ≡ false = ground arith in
      let l : ltb (length line) peer.msg_in_len_max ≡ false = ground arith in
      handle_bytes-append line (c ∷ rest) st
      ∙ rw (handle_bytes-collects line st n (ground arith)) (rw (empty, e, l, w) refl)
