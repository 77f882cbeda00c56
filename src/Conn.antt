-- ===== src/Conn.antt =====
-- processing/dpdk_pipeline/conn.c: how the bytes that a client sends become commands. The handler of
-- commands and the writes to the client are parameters.
pub mod Lines
use rids.Prelude.{
  ℕ, Bool, true, false, List, [], ◌∷◌, ◌++◌, ltb, ◌==◌, if◌then◌else◌, length, codes,
}

-- `msg_handle` takes the command and returns what it leaves in `msg_out`; it works on the state `S` of
-- the program. `can_write` tells whether one more write succeeds after the earlier ones.
pub record Peer (S : Type 0) : Type 0 where
  pub msg_in_len_max : ℕ
  pub prompt : List ℕ
  pub msg_handle : S → List ℕ → S × List ℕ
  pub can_write : List (List ℕ) → Bool

-- The first `msg_in_len` bytes of `msg_in`, the state of the program, and the writes, oldest first.
pub record Session (S : Type 0) : Type 0 where
  pub msg_in : List ℕ
  pub app : S
  pub sent : List (List ℕ)

-- MSG_CMD_TOO_LONG
abbrev pub msg_cmd_too_long : List ℕ
msg_cmd_too_long = codes "Command too long."

-- What read() returns: -1 for want of data, -1 for another reason, or bytes, which may be none.
pub data Input : Type 0 where
  would_block broken : Input
  bytes : List ℕ → Input

module _ {S : Type 0} (peer : Peer S) where
  -- A write, and what is done where it succeeds; `false` is the return of its status -1.
  abbrev pub write_then : List ℕ → Session S → Session S → Session S × Bool
  write_then text st next =
      if peer.can_write st.sent
      then (record next { sent = st.sent ++ text ∷ [] }, true)
      else (st, false)

  -- if (n) write(msg_out), then msg_in_len = 0
  abbrev pub reply : List ℕ → Session S → Session S × Bool
  reply [] st = (record st { msg_in = [] }, true)
  reply (c ∷ out) st = write_then (c ∷ out) st (record st { msg_in = [] })

  abbrev pub end_of_line : Session S → Session S × Bool
  end_of_line st =
      let (app, out) = peer.msg_handle st.app st.msg_in in reply out (record st { app = app })

  -- One round of the loop over the bytes read.
  unfoldable pub handle_byte : ℕ → Session S → Session S × Bool
  handle_byte c st =
      if c == 10
      then end_of_line st
      else if ltb (length st.msg_in) peer.msg_in_len_max
      then (record st { msg_in = st.msg_in ++ c ∷ [] }, true)
      else write_then msg_cmd_too_long st (record st { msg_in = [] })

  -- Going on where the last round did not return.
  abbrev pub and_then : Session S × Bool → (Session S → Session S × Bool) → Session S × Bool
  and_then (st, true) rest = rest st
  and_then (st, false) rest = (st, false)

  unfoldable pub handle_bytes : List ℕ → Session S → Session S × Bool
  unfolding handle_byte
  handle_bytes [] st = (st, true)
  handle_bytes (c ∷ buf) st = and_then (handle_byte c st) (handle_bytes buf)

  -- `true` is the result 0.
  unfoldable pub data_event_handle : Input → Session S → Session S × Bool
  unfolding handle_bytes
  data_event_handle would_block st = (st, true)
  data_event_handle broken st = (st, false)
  data_event_handle (bytes []) st = (st, true)
  data_event_handle (bytes (c ∷ buf)) st =
      and_then (handle_bytes (c ∷ buf) st) (λ st'. write_then peer.prompt st' st')
