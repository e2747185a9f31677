-- ===== src/Client.antt =====
-- src/client/ipc-client.ts: the client of the daemon. A socket is known by a number; which sockets
-- the system has destroyed, what arrives on them, and timeouts are arguments or steps. Listeners do
-- not call back.
pub mod Transfer
pub mod Stale
mod Tests
use desktop_remote.Common.{
  ℕ, ◌+◌, Bool, true, false, not, ◌&&◌, Option, none, some, List, [], ◌∷◌, ◌++◌, map, ltb, leb,
  ◌==◌, if◌then◌else◌, length, is_some,
}
use desktop_remote.Session.Bounds.{session_history_limit}
use desktop_remote.Common.Dict.{find, put, delete}

pub data Mode : Type 0 where
  visual admin : Mode

pub data ClientError : Type 0 where
  already_attached_error : ℕ → ClientError
  too_many_calls count_mismatch server_error closed_by_client connection_closed timed_out :
      ClientError

-- A promise with the functions that settle it; only the first call counts.
pub data Deferred (A : Type 0) : Type 0 where
  unsettled : Deferred A
  resolved : A → Deferred A
  rejected : ClientError → Deferred A

pub record Snapshot (H R : Type 0) : Type 0 where
  pub header : H
  pub rows : List R

pub record SnapshotBuffer (H R : Type 0) : Type 0 where
  pub buffer_header : H
  pub expected_calls : ℕ
  pub buffer_rows : List R

-- A message of the server; `H` is what a snapshot has besides its rows.
pub data Received (H R S : Type 0) : Type 0 where
  hello_ack attached snapshot_end pong event error : Received H R S
  already_attached : ℕ → Received H R S
  status_of : ℕ → S → Received H R S
  snapshot_begin : H → ℕ → Received H R S
  snapshot_call : R → Received H R S

pub data Request : Type 0 where
  hello : Mode → Request
  attach detach snapshot_request subscribe ping : Request
  status_request : ℕ → Request

pub record Client (H R S : Type 0) : Type 0 where
  pub socket : Option ℕ
  pub mode : Option Mode
  pub hello_deferred : Option (Deferred (Unit {0}))
  pub attach_deferred : Option (Deferred (Unit {0}))
  pub snapshot_deferred : Option (Deferred (Snapshot H R))
  pub snapshot_buffer : Option (SnapshotBuffer H R)
  pub pending_status : List (ℕ × Deferred S)
  pub heartbeat : Bool
  pub request_counter : ℕ
  pub subscribed : Bool
  pub intentional_close : Bool
  -- What has been sent on which socket, and how often the disconnect listeners have been called.
  pub sent : List (ℕ × Request)
  pub disconnects : ℕ

unfoldable pub settle : {A : Type 0} → Deferred A → Deferred A → Deferred A
settle value unsettled = value
settle value (resolved a) = resolved a
settle value (rejected failure) = rejected failure

-- `deferred?.resolve(value)`, `deferred?.reject(error)`.
unfoldable pub settle_some : {A : Type 0} → Deferred A → Option (Deferred A) → Option (Deferred A)
unfolding settle
settle_some value none = none
settle_some value (some deferred) = some (settle value deferred)

abbrev pub is_visual : Option Mode → Bool
is_visual none = false
is_visual (some visual) = true
is_visual (some admin) = false

module _ {H R S : Type 0} where
  unfoldable pub cancel_heartbeat : Client H R S → Client H R S
  cancel_heartbeat c = record c { heartbeat = false }

  -- `rejectPending`; the requests that it drops have been rejected.
  unfoldable pub reject_pending : Client H R S → Client H R S
  reject_pending c = record c {
    hello_deferred = none;
    attach_deferred = none;
    snapshot_deferred = none;
    snapshot_buffer = none;
    pending_status = [];
  }

  unfoldable pub finish_snapshot : Client H R S → Client H R S
  unfolding settle_some
  finish_snapshot c = elim c.snapshot_buffer [
    | none ↦ c
    | some buffer ↦ record c {
      snapshot_deferred =
          settle_some
            (if length buffer.buffer_rows == buffer.expected_calls
              then resolved (record { header = buffer.buffer_header; rows = buffer.buffer_rows })
              else rejected count_mismatch)
            c.snapshot_deferred;
    }
  ]

  unfoldable pub handle_message : Received H R S → Client H R S → Client H R S
  unfolding settle_some finish_snapshot
  handle_message hello_ack c = record c {
    hello_deferred = settle_some (resolved tt) c.hello_deferred;
  }
  handle_message attached c = record c {
    attach_deferred = settle_some (resolved tt) c.attach_deferred;
  }
  handle_message (already_attached since) c = record c {
    attach_deferred = settle_some (rejected (already_attached_error since)) c.attach_deferred;
  }
  handle_message (status_of id status) c = elim (find id c.pending_status) [
    | none ↦ c
    | some deferred ↦ record c {
      pending_status = put id (settle (resolved status) deferred) c.pending_status;
    }
  ]
  handle_message (snapshot_begin header count) c =
      if ltb session_history_limit count
      then record c {
        snapshot_deferred = settle_some (rejected too_many_calls) c.snapshot_deferred;
      }
      else record c {
        snapshot_buffer =
            some (record { buffer_header = header; expected_calls = count; buffer_rows = [] });
      }
  handle_message (snapshot_call row) c = elim c.snapshot_buffer [
    | none ↦ c
    | some buffer ↦
        if leb session_history_limit (length buffer.buffer_rows)
        then record c {
          snapshot_deferred = settle_some (rejected too_many_calls) c.snapshot_deferred;
        }
        else record c {
          snapshot_buffer = some (record buffer { buffer_rows = buffer.buffer_rows ++ row ∷ [] });
        }
  ]
  handle_message snapshot_end c = finish_snapshot c
  handle_message error c = record c {
    attach_deferred = settle_some (rejected server_error) c.attach_deferred;
    snapshot_deferred = settle_some (rejected server_error) c.snapshot_deferred;
  }
  handle_message event c = c
  handle_message pong c = c

  unfoldable pub handle_messages : List (Received H R S) → Client H R S → Client H R S
  unfolding handle_message
  handle_messages [] c = c
  handle_messages (message ∷ messages) c = handle_messages messages (handle_message message c)

  -- The handler of a socket's close event.
  unfoldable pub on_close : ℕ → Client H R S → Client H R S
  unfolding reject_pending cancel_heartbeat
  on_close id c = record (reject_pending (cancel_heartbeat c)) {
    socket = elim c.socket [
      | none ↦ none
      | some current ↦ if current == id then none else some current
    ];
    mode = none;
    subscribed = false;
    disconnects = if c.intentional_close then c.disconnects else c.disconnects + 1;
  }

  -- `close`.
  unfoldable pub close_client : Client H R S → Client H R S
  unfolding reject_pending cancel_heartbeat
  close_client c = record (reject_pending (cancel_heartbeat c)) {
    socket = none;
    mode = none;
    subscribed = false;
    intentional_close = true;
    sent = elim c.socket [
      | none ↦ c.sent
      | some id ↦ if is_visual c.mode then c.sent ++ (id, detach) ∷ [] else c.sent
    ];
  }

  -- `connect` of a client that has no socket, up to its wait for the connection.
  unfoldable pub open_socket : Mode → ℕ → Client H R S → Client H R S
  open_socket wanted id c = record c {
    socket = some id;
    mode = some wanted;
    intentional_close = false;
  }

  -- What follows in `connect`, up to its wait for the answer.
  unfoldable pub say_hello : Mode → ℕ → Client H R S → Client H R S
  say_hello wanted id c = record c {
    hello_deferred = some unsettled;
    sent = c.sent ++ (id, hello wanted) ∷ [];
  }

  -- `requestSnapshot` up to its wait; `none` where it throws.
  unfoldable pub request_snapshot : Client H R S → Option (Client H R S)
  request_snapshot c = elim c.socket [
    | none ↦ none
    | some id ↦
        if not (is_visual c.mode)
        then none
        else if is_some c.snapshot_deferred
        then none
        else some (record c {
          snapshot_deferred = some unsettled;
          snapshot_buffer = none;
          sent = c.sent ++ (id, snapshot_request) ∷ [];
        })
  ]

  -- `requestStatus` up to its wait.
  unfoldable pub request_status : Client H R S → Option (Client H R S)
  request_status c = elim c.socket [
    | none ↦ none
    | some id ↦ some (record c {
      request_counter = c.request_counter + 1;
      pending_status = put (c.request_counter + 1) unsettled c.pending_status;
      sent = c.sent ++ (id, status_request (c.request_counter + 1)) ∷ [];
    })
  ]
