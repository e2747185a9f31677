-- ===== src/Client/Transfer.antt =====
-- The transfer of a snapshot.
use mathlib.Core.List.{append-nil, append_assoc}
use desktop_remote.Common.{
  ℕ, ◌+◌, ◌≤◌, ◌<◌, ◌≡◌, refl, sym, ap, ◌∙◌, true, false, Option, none, some, List, [], ◌∷◌, ◌++◌,
  map, ltb, leb, ◌==◌, if◌then◌else◌, length, length-append, leb→le, leb→gt, arith, inl, inr,
  Bool-cases,
}
use desktop_remote.Client.{
  ClientError, Client, Deferred, unsettled, resolved, rejected, too_many_calls, count_mismatch,
  Snapshot, SnapshotBuffer, Received, snapshot_begin, snapshot_call, snapshot_end, handle_message,
  handle_messages, finish_snapshot, request_snapshot, settle, settle_some,
}
use desktop_remote.Session.Bounds.{session_history_limit}

module _ {H R : Type 0} where
  -- What becomes of the request.
  unfoldable pub outcome : H → ℕ → List R → Deferred (Snapshot H R)
  outcome header count rows =
      if ltb session_history_limit count
      then rejected too_many_calls
      else if ltb session_history_limit (length rows)
      then rejected too_many_calls
      else if length rows == count
      then resolved (record { header = header; rows = rows })
      else rejected count_mismatch

  abbrev with_row : SnapshotBuffer H R → R → SnapshotBuffer H R
  with_row buffer row = record buffer { buffer_rows = buffer.buffer_rows ++ row ∷ [] }

  abbrev receiving : H → ℕ → List R → SnapshotBuffer H R
  receiving header count rows = record {
    buffer_header = header;
    expected_calls = count;
    buffer_rows = rows;
  }

  more_rows :
      (header : H) (count : ℕ) (before rows : List R)
      → session_history_limit < length before + length rows
      → ltb session_history_limit count ≡ false
      → outcome header count (before ++ rows) ≡ rejected too_many_calls
  unfolding outcome
  more_rows header count before rows h small =
      let many : ltb session_history_limit (length (before ++ rows)) ≡ true =
        ground (arith, h, length-append before rows) in
      rw (small, many) refl

module _ {H R S : Type 0} where
  -- The messages of a snapshot that announces `count` calls.
  unfoldable pub transfer : H → ℕ → List R → List (Received H R S)
  transfer header count rows =
      snapshot_begin header count ∷ map snapshot_call rows ++ snapshot_end ∷ []

  abbrev pub waiting :
      Client H R S → Deferred (Snapshot H R) → Option (SnapshotBuffer H R) → Client H R S
  waiting c deferred buffer = record c {
    snapshot_deferred = some deferred;
    snapshot_buffer = buffer;
  }

  row_kept :
      (row : R) (c : Client H R S) (deferred : Deferred (Snapshot H R))
      (buffer : SnapshotBuffer H R)
      → leb session_history_limit (length buffer.buffer_rows) ≡ false
      → handle_message (snapshot_call row) (waiting c deferred (some buffer))
        ≡ waiting c deferred (some (with_row buffer row))
  unfolding handle_message
  row_kept row c deferred buffer e = rw e refl

  row_refused :
      (row : R) (c : Client H R S) (deferred : Deferred (Snapshot H R))
      (buffer : SnapshotBuffer H R)
      → leb session_history_limit (length buffer.buffer_rows) ≡ true
      → handle_message (snapshot_call row) (waiting c deferred (some buffer))
        ≡ waiting c (settle (rejected too_many_calls) deferred) (some buffer)
  unfolding handle_message settle_some
  row_refused row c deferred buffer e = rw e refl

  -- What the messages after the first make of the request.
  abbrev result_of : List R → Client H R S → Option (Deferred (Snapshot H R))
  result_of rows c =
      (handle_messages (map snapshot_call rows ++ snapshot_end ∷ []) c).snapshot_deferred

  -- A request that has failed stays so.
  rejected_stays :
      (failure : ClientError) (rows : List R) (c : Client H R S)
      (buffer : Option (SnapshotBuffer H R))
      → result_of rows (waiting c (rejected failure) buffer) ≡ some (rejected failure)
  unfolding handle_messages handle_message finish_snapshot settle_some settle
  rejected_stays failure [] c none = refl
  rejected_stays failure [] c (some buffer) = refl
  rejected_stays failure (row ∷ rows) c none = rejected_stays failure rows c none
  rejected_stays failure (row ∷ rows) c (some buffer) =
      elim (Bool-cases (leb session_history_limit (length buffer.buffer_rows))) [
        | inl e ↦
            ap (result_of rows) (row_refused row c (rejected failure) buffer e)
            ∙ rejected_stays failure rows c (some buffer)
        | inr e ↦
            ap (result_of rows) (row_kept row c (rejected failure) buffer e)
            ∙ rejected_stays failure rows c (some (with_row buffer row))
      ]

  calls_lem :
      (header : H) (count : ℕ) (rows before : List R) (c : Client H R S)
      → length before ≤ session_history_limit
      → ltb session_history_limit count ≡ false
      → result_of rows (waiting c unsettled (some (receiving header count before)))
        ≡ some (outcome header count (before ++ rows))
  unfolding handle_messages handle_message finish_snapshot settle_some settle outcome
  calls_lem header count [] before c room small =
      let few : ltb session_history_limit (length before) ≡ false = ground (arith, room) in
      rw (append-nil before, small, few) refl
  calls_lem header count (row ∷ rows) before c room small =
      elim (Bool-cases (leb session_history_limit (length before))) [
        | inl e ↦
            ap (result_of rows) (row_refused row c unsettled (receiving header count before) e)
            ∙ rejected_stays too_many_calls rows c (some (receiving header count before))
            ∙ ap some (
                sym (
                  more_rows header count before (row ∷ rows)
                    (omega (arith, leb→le session_history_limit (length before) e)) small))
        | inr e ↦
            ap (result_of rows) (row_kept row c unsettled (receiving header count before) e)
            ∙ calls_lem header count rows (before ++ row ∷ []) c
                (omega (
                  arith,
                  leb→gt session_history_limit (length before) e,
                  length-append before (row ∷ []),
                ))
                small
            ∙ ap (λ r. some (outcome header count r)) (append_assoc before (row ∷ []) rows)
      ]

  begin_small :
      (header : H) (count : ℕ) (c : Client H R S)
      → ltb session_history_limit count ≡ false
      → handle_message (snapshot_begin header count) (waiting c unsettled none)
        ≡ waiting c unsettled (some (receiving header count []))
  unfolding handle_message
  begin_small header count c e = rw e refl

  begin_large :
      (header : H) (count : ℕ) (c : Client H R S)
      → ltb session_history_limit count ≡ true
      → handle_message (snapshot_begin header count) (waiting c unsettled none)
        ≡ waiting c (rejected too_many_calls) none
  unfolding handle_message settle_some settle
  begin_large header count c e = rw e refl

  transfer_lem :
      (header : H) (count : ℕ) (rows : List R) (c : Client H R S)
      → (handle_messages (transfer header count rows) (waiting c unsettled none)).snapshot_deferred
        ≡ some (outcome header count rows)
  unfolding handle_messages transfer
  transfer_lem header count rows c = elim (Bool-cases (ltb session_history_limit count)) [
    | inl e ↦
        ap (result_of rows) (begin_large header count c e)
        ∙ rejected_stays too_many_calls rows c none
        ∙ ap some (sym (unfold outcome in rw e refl))
    | inr e ↦
        ap (result_of rows) (begin_small header count c e)
        ∙ calls_lem header count rows [] c (omega arith) e
  ]

  requested : (c d : Client H R S) → request_snapshot c ≡ some d → d ≡ waiting d unsettled none
  unfolding request_snapshot
  requested c d e =
      let waits : d.snapshot_deferred ≡ some unsettled = ground arith in
      let empty : d.snapshot_buffer ≡ none = ground arith in
      λ i. record d { snapshot_deferred = waits i; snapshot_buffer = empty i }

  -- The messages of a snapshot settle the request that waits for it: it gets the rows and the header as
  -- they were sent, if there are as many rows as the first message announces and no more than the
  -- history limit; it fails as too long if the announced number or the rows exceed that limit, and as
  -- a mismatch otherwise.
  pub transfer-outcome :
      (header : H) (count : ℕ) (rows : List R) (c d : Client H R S)
      → request_snapshot c ≡ some d
      → (handle_messages (transfer header count rows) d).snapshot_deferred
        ≡ some (outcome header count rows)
  transfer-outcome header count rows c d e =
      ap (λ x. (handle_messages (transfer header count rows) x).snapshot_deferred) (requested c d e)
      ∙ transfer_lem header count rows d
