-- ===== src/SelfHealing/Callbacks.antt =====
-- Every callback of the self-healing executor keeps the invariant.
use desktop_remote.Common.{
  ℕ, ◌+◌, ◌≡◌, refl, sym, ap, ◌∙◌, subst, inl, inr, Bool, true, false, not, ◌&&◌, none, some, List,
  [], ◌∷◌, ◌++◌, leb, if◌then◌else◌, is_some, arith, Bool-cases, Option-cases, All-append,
}
use desktop_remote.Events.{Text}
use desktop_remote.SelfHealing.Sync.{
  op_ids, is_open, drop_id, Rising-append, open_ids-append, AllBelow, open_ids-AllBelow,
  op_ids-set_fresh, op_ids-abort, op_ids-remove, Rising-set, open_ids-set_same, open_ids-set_closed,
}
use desktop_remote.SelfHealing.{
  TrackedOperation, Call, Executor, get_operation, remove_operation, track, find_call, execute,
  abort_operation, on_settled, on_timeout, check_each, kill_child, is_empty,
}
use desktop_remote.SelfHealing.Valid.{
  IsFair, HasNoChild, is_nil, IsInSync, is_empty-is_nil, All-set_call, All-find_call, All-abort,
  All-remove, All-set_operation, All-get_operation, contains, contains-op_ids, contains-open_ids,
}

is_nil-snoc : (is : List ℕ) (i : ℕ) → is_nil (is ++ i ∷ []) ≡ false
is_nil-snoc [] i = refl
is_nil-snoc (j ∷ is) i = refl

pub execute-IsInSync :
    (name : Text) (now : ℕ) (e : Executor) → IsInSync e → IsInSync (execute name now e)
unfolding execute track
execute-IsInSync name now e v = record {
  rising = Rising-append 0 e.calls e.op_counter _ v.rising refl;
  synced =
      ids
      ∙ ap (λ is. is ++ (e.op_counter + 1) ∷ []) v.synced
      ∙ sym (open_ids-append e.calls _ refl);
  watched = rw ids (ap not (sym (is_nil-snoc (op_ids e.operations) (e.op_counter + 1))));
  fair = All-append IsFair e.calls _ v.fair (refl, tt);
  childless = All-set_operation HasNoChild _ e.operations refl v.childless;
  harmless = v.harmless;
}
  where
    ids :
        op_ids (track e.deadline_ms (e.op_counter + 1) name now none e.operations)
        ≡ op_ids e.operations ++ (e.op_counter + 1) ∷ []
    ids = op_ids-set_fresh _ e.operations (
        subst (AllBelow (e.op_counter + 1)) (sym v.synced)
          (open_ids-AllBelow 0 e.calls e.op_counter v.rising))

abort_operation-IsInSync :
    (id now : ℕ) (e : Executor) → IsInSync e → IsInSync (abort_operation id now e)
unfolding abort_operation
abort_operation-IsInSync id now e v = elim (Option-cases (get_operation id e.operations)) [
  | inl n ↦ rw (n, abort_operation) v
  | inr (o, f) ↦
      rw (f, abort_operation)
        (record {
          rising = v.rising;
          synced = op_ids-abort id e.operations ∙ v.synced;
          watched = rw (op_ids-abort id e.operations) v.watched;
          fair = v.fair;
          childless = All-abort HasNoChild id e.operations (λ x p. p) v.childless;
          harmless =
              ap (λ pid. kill_child pid e.kills)
                (All-get_operation HasNoChild id e.operations o f v.childless)
              ∙ v.harmless;
        })
]

pub check_each-IsInSync :
    (now : ℕ) (ops : List TrackedOperation) (e : Executor)
    → IsInSync e
    → IsInSync (check_each now ops e)
unfolding check_each
check_each-IsInSync now [] e v = v
check_each-IsInSync now (op ∷ ops) e v = elim (Bool-cases op.aborted) [
  | inl a ↦ rw a (check_each-IsInSync now ops e v)
  | inr a ↦ elim (Bool-cases (leb op.deadline now)) [
    | inl d ↦
        rw (a, d)
          (check_each-IsInSync now ops (abort_operation op.id now e)
            (abort_operation-IsInSync op.id now e v))
    | inr d ↦ rw (a, d) (check_each-IsInSync now ops e v)
  ]
]

drop_keeps : (id : ℕ) (is : List ℕ) → is_nil (drop_id id is) ≡ false → is_nil is ≡ false
drop_keeps id [] h = h
drop_keeps id (i ∷ is) h = refl

-- The watchdog after an operation was taken out of the map.
watch :
    (id : ℕ) (ops : List TrackedOperation) (w : Bool)
    → w ≡ not (is_nil (op_ids ops))
    → (if is_empty (remove_operation id ops) then false else w)
      ≡ not (is_nil (op_ids (remove_operation id ops)))
watch id ops w h = elim (Bool-cases (is_nil (op_ids (remove_operation id ops)))) [
  | inl n ↦ rw (is_empty-is_nil (remove_operation id ops), n) refl
  | inr n ↦
      rw (is_empty-is_nil (remove_operation id ops), n)
        (h ∙ ap not (drop_keeps id (op_ids ops) (ap is_nil (sym (op_ids-remove id ops)) ∙ n)))
]

-- The executor's promise settles once: before it does, the call is not marked as settled.
pub on_settled-IsInSync :
    (c : Call) (now : ℕ) (e : Executor)
    → find_call c.id e.calls ≡ some c
    → c.settled ≡ false
    → IsInSync e
    → IsInSync (on_settled c now e)
unfolding on_settled
on_settled-IsInSync c now e f u v = elim (Bool-cases c.hung) [
  | inl h ↦ simp h (record {
    rising = Rising-set 0 e.calls e.op_counter _ v.rising;
    synced = v.synced ∙ sym (open_ids-set_same e.calls c _ f refl (ground arith));
    watched = v.watched;
    fair = All-set_call IsFair _ e.calls (ground (arith, fair_call)) v.fair;
    childless = v.childless;
    harmless = v.harmless;
  })
  | inr h ↦ simp h (record {
    rising = Rising-set 0 e.calls e.op_counter _ v.rising;
    synced =
        op_ids-remove c.id e.operations
        ∙ ap (drop_id c.id) v.synced
        ∙ sym (open_ids-set_closed e.calls c _ f refl (ground arith) (ground arith));
    watched = watch c.id e.operations e.watchdog v.watched;
    fair = All-set_call IsFair _ e.calls (ground (arith, fair_call)) v.fair;
    childless = All-remove HasNoChild c.id e.operations v.childless;
    harmless = v.harmless;
  })
]
  where
    fair_call : IsFair c
    fair_call = All-find_call IsFair c.id e.calls c f v.fair

pub on_timeout-IsInSync :
    (c : Call) (now : ℕ) (e : Executor)
    → find_call c.id e.calls ≡ some c
    → IsInSync e
    → IsInSync (on_timeout c now e)
unfolding on_timeout
on_timeout-IsInSync c now e f v =
    elim (Bool-cases (is_some (get_operation c.id e.operations) && not c.hung)) [
      | inr n ↦ rw n v
      | inl y ↦ rw y (
          abort_operation-IsInSync c.id now _ (record {
            rising = Rising-set 0 e.calls e.op_counter _ v.rising;
            synced = v.synced ∙ sym (open_ids-set_same e.calls c _ f refl (sym (opened y)));
            watched = v.watched;
            fair = All-set_call IsFair _ e.calls (ground (arith, fair_call, opened y)) v.fair;
            childless = v.childless;
            harmless = v.harmless;
          }))
    ]
  where
    fair_call : IsFair c
    fair_call = All-find_call IsFair c.id e.calls c f v.fair

    opened : (is_some (get_operation c.id e.operations) && not c.hung) ≡ true → is_open c ≡ true
    opened y =
        sym (contains-open_ids c.id 0 e.calls e.op_counter c v.rising f)
        ∙ ap (contains c.id) (sym v.synced)
        ∙ contains-op_ids c.id e.operations
        ∙ ground arith
