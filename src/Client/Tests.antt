-- ===== src/Client/Tests.antt =====
-- A visual client on socket 1. A row is a number, what a snapshot has besides is one too.
use desktop_remote.Common.{ℕ, ◌≡◌, refl, true, false, none, some, [], ◌∷◌}
use desktop_remote.Client.{
  Client, visual, resolved, unsettled, snapshot_request, request_snapshot, handle_messages,
  close_client, open_socket, say_hello, on_close,
}
use desktop_remote.Client.Transfer.{transfer, outcome, transfer-outcome}
use desktop_remote.Client.Stale.{on_close_stale}

abbrev attached_client : Client ℕ ℕ ℕ
attached_client = record {
  socket = some 1;
  mode = some visual;
  hello_deferred = none;
  attach_deferred = none;
  snapshot_deferred = none;
  snapshot_buffer = none;
  pending_status = [];
  heartbeat = true;
  request_counter = 0;
  subscribed = true;
  intentional_close = false;
  sent = [];
  disconnects = 0;
}

abbrev waiting_client : Client ℕ ℕ ℕ
waiting_client = record attached_client {
  snapshot_deferred = some unsettled;
  sent = (1, snapshot_request) ∷ [];
}

requested_snapshot : request_snapshot attached_client ≡ some waiting_client
unfolding request_snapshot
requested_snapshot = refl

transfer-outcome_example :
    (handle_messages (transfer 7 2 (10 ∷ 11 ∷ [])) waiting_client).snapshot_deferred
    ≡ some (outcome 7 2 (10 ∷ 11 ∷ []))
transfer-outcome_example =
    transfer-outcome 7 2 (10 ∷ 11 ∷ []) attached_client waiting_client requested_snapshot

both_rows :
    outcome {H = ℕ} {R = ℕ} 7 2 (10 ∷ 11 ∷ [])
    ≡ resolved (record { header = 7; rows = 10 ∷ 11 ∷ [] })
unfolding outcome
both_rows = refl

on_close_stale_example :
    let d = say_hello visual 2 (on_close 1 (open_socket visual 2 (close_client attached_client))) in
    (d.socket ≡ some 2) × (d.mode ≡ none) × (request_snapshot d ≡ none) × (d.disconnects ≡ 1)
on_close_stale_example = on_close_stale 1 2 visual attached_client refl
