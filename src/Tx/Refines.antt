-- ===== src/Tx/Refines.antt =====
-- The loop of Coordinator.execute, beside the specification.
use httpkvdb.Base.{
  ℕ, ◌≡◌, refl, ap, ◌∙◌, Option, none, some, List, [], ◌∷◌, ◌++◌, map, append_assoc, append-nil,
  arith, inl, inr,
}
use mathlib.Core.Path.{fun_ext}
use mathlib.Core.List.{map-append}
use httpkvdb.Base.Int.{ℤ}
use httpkvdb.Base.Bytes.{Bytes, bytes_eq_iff}
use httpkvdb.Model.{
  KvRecord, Error, Result-cases, ok, err, TxOperation, TxOperationResult, Transaction,
}
use httpkvdb.Golang.Crypto.{Std}
use httpkvdb.Storage.Snapshot.{Snapshot, get_from, put_into, delete_from}
use httpkvdb.Storage.Records.{
  get_from-put_into, get_from-delete_from, delete_from_absent, delete_from_present,
}
use httpkvdb.Storage.Disk.{Env}
use httpkvdb.Storage.Atomic.{AtomicTx}
use httpkvdb.Storage.Atomic
use httpkvdb.Tx.Execute.{
  OpKind, put, get, head, exists, delete, other, op_kind, op_at, Round, goes_on, aborts, run_kind,
  run_op, run_ops, stopped_with, Ending, finished, stopped, start_item,
}
use httpkvdb.Tx.Spec.{View, view_of, write, Answer, answer_of, spec_op, spec_run, after}

-- A round is what the specification says for the operation.
abbrev RoundIs : Bytes → Round → Option (Answer × View) → Type 0
RoundIs u (goes_on item atx) none = ⊥
RoundIs u (goes_on item atx) (some (a, v)) = (answer_of item ≡ a) × (view_of atx.contents u ≡ v)
RoundIs u (aborts item reason e) none = Unit {0}
RoundIs u (aborts item reason e) (some av) = ⊥

view_of-put_into :
    (std : Std) (now : ℕ) (d : Snapshot) (u key value content_type : Bytes)
    → view_of (put_into std now d u key value content_type).1 u
      ≡ write (view_of d u) key (some (value, content_type))
unfolding view_of
view_of-put_into std now d u key value content_type =
    fun_ext λ j. rw get_from-put_into (unfold put_into in ground (arith, bytes_eq_iff u u))

view_of-delete_from :
    (d : Snapshot) (u key : Bytes)
    → view_of (delete_from d u key).1 u ≡ write (view_of d u) key none
unfolding view_of
view_of-delete_from d u key =
    fun_ext λ j. rw get_from-delete_from (ground (arith, bytes_eq_iff u u))

view_of_ok :
    (d : Snapshot) (u key : Bytes) (rec : KvRecord)
    → get_from d u key ≡ ok rec
    → view_of d u key ≡ some (rec.value, rec.content_type)
unfolding view_of
view_of_ok d u key rec h = rw h

view_of_err :
    (d : Snapshot) (u key : Bytes) (e : Error) → get_from d u key ≡ err e → view_of d u key ≡ none
unfolding view_of
view_of_err d u key e h = rw h

module _ {Doc : Type 0} (env : Env Doc) (u : Bytes) where
  -- One lemma for each case of the switch.
  module _ (op : TxOperation) (seq : ℤ) (atx : AtomicTx) where
    put-RoundIs :
        RoundIs u
          (run_kind env u op (start_item seq op) atx put)
          (spec_op put op (view_of atx.contents u))
    unfolding run_kind spec_op Atomic.put
    put-RoundIs =
        (refl, view_of-put_into env.std env.now atx.contents u op.key op.body op.content_type)

    get-RoundIs :
        RoundIs u
          (run_kind env u op (start_item seq op) atx get)
          (spec_op get op (view_of atx.contents u))
    unfolding run_kind spec_op Atomic.get view_of
    get-RoundIs = elim (Result-cases (get_from atx.contents u op.key)) [
      | inl (rec, h) ↦ rw h (refl, refl)
      | inr (e, h) ↦ rw h tt
    ]

    head-RoundIs :
        RoundIs u
          (run_kind env u op (start_item seq op) atx head)
          (spec_op head op (view_of atx.contents u))
    unfolding run_kind spec_op Atomic.get view_of
    head-RoundIs = elim (Result-cases (get_from atx.contents u op.key)) [
      | inl (rec, h) ↦ rw h (refl, refl)
      | inr (e, h) ↦ rw h tt
    ]

    exists-RoundIs :
        RoundIs u
          (run_kind env u op (start_item seq op) atx exists)
          (spec_op exists op (view_of atx.contents u))
    unfolding run_kind spec_op Atomic.exists view_of
    exists-RoundIs = elim (Result-cases (get_from atx.contents u op.key)) [
      | inl (rec, h) ↦ rw (h, Atomic.exists) (refl, refl)
      | inr (e, h) ↦ rw (h, Atomic.exists) (refl, refl)
    ]

    delete-RoundIs :
        RoundIs u
          (run_kind env u op (start_item seq op) atx delete)
          (spec_op delete op (view_of atx.contents u))
    unfolding run_kind spec_op Atomic.delete
    delete-RoundIs = elim (Result-cases (get_from atx.contents u op.key)) [
      | inl (rec, h) ↦
          rw
            (
              ap (λ t. t.0) (delete_from_present atx.contents u op.key rec h),
              view_of_ok atx.contents u op.key rec h,
            )
            (refl, view_of-delete_from atx.contents u op.key)
      | inr (e, h) ↦
          rw
            (
              ap (λ t. t.0) (delete_from_absent atx.contents u op.key e h),
              view_of_err atx.contents u op.key e h,
            )
            tt
    ]

    run_kind-RoundIs :
        (k : OpKind)
        → RoundIs u
            (run_kind env u op (start_item seq op) atx k)
            (spec_op k op (view_of atx.contents u))
    run_kind-RoundIs put = put-RoundIs
    run_kind-RoundIs get = get-RoundIs
    run_kind-RoundIs head = head-RoundIs
    run_kind-RoundIs exists = exists-RoundIs
    run_kind-RoundIs delete = delete-RoundIs
    run_kind-RoundIs other = unfold run_kind spec_op in tt

-- The loop ends as the specification says, with the answers behind those given before.
abbrev pub EndingIs : Bytes → List Answer → Ending → Option (List Answer × View) → Type 0
EndingIs u before (finished results atx) none = ⊥
EndingIs u before (finished results atx) (some (answers, v)) =
    (map answer_of results ≡ before ++ answers) × (view_of atx.contents u ≡ v)
EndingIs u before (stopped results reason e) none = Unit {0}
EndingIs u before (stopped results reason e) (some av) = ⊥

EndingIs-after :
    (u : Bytes) (before : List Answer) (a : Answer) (e : Ending) (o : Option (List Answer × View))
    → EndingIs u (before ++ a ∷ []) e o
    → EndingIs u before e (after a o)
EndingIs-after u before a (finished results atx) none h = h
EndingIs-after u before a (finished results atx) (some (answers, v)) h =
    (h.0 ∙ append_assoc before (a ∷ []) answers, h.1)
EndingIs-after u before a (stopped results reason e) none h = tt
EndingIs-after u before a (stopped results reason e) (some av) h = h

module _ {Doc : Type 0} (env : Env Doc) (t : Transaction) where
  -- The rest of the loop behind one round.
  abbrev continue : List ℤ → List TxOperationResult → Round → Ending
  continue seqs results (aborts item reason e) = stopped_with results item reason e
  continue seqs results (goes_on item atx) = run_ops env t seqs (results ++ item ∷ []) atx

  abbrev spec_continue : List ℤ → Option (Answer × View) → Option (List Answer × View)
  spec_continue seqs none = none
  spec_continue seqs (some (a, v)) = after a (spec_run (map (op_at t) seqs) v)

  continue-EndingIs :
      (seqs : List ℤ) (results : List TxOperationResult)
      → ((item : TxOperationResult) (atx : AtomicTx)
          → EndingIs t.userspace_id
              (map answer_of (results ++ item ∷ []))
              (run_ops env t seqs (results ++ item ∷ []) atx)
              (spec_run (map (op_at t) seqs) (view_of atx.contents t.userspace_id)))
      → (r : Round) (o : Option (Answer × View)) → RoundIs t.userspace_id r o
      → EndingIs t.userspace_id
          (map answer_of results)
          (continue seqs results r)
          (spec_continue seqs o)
  continue-EndingIs seqs results ih (aborts none reason e) none h = tt
  continue-EndingIs seqs results ih (aborts (some item) reason e) none h = tt
  continue-EndingIs seqs results ih (aborts item reason e) (some av) h = absurd h
  continue-EndingIs seqs results ih (goes_on item atx) none h = absurd h
  continue-EndingIs seqs results ih (goes_on item atx) (some (a, v)) (ha, hv) =
      EndingIs-after t.userspace_id (map answer_of results) a _ _
        (rw (map-append, ha, hv) at (ih item atx))

  pub run_ops-EndingIs :
      (seqs : List ℤ) (results : List TxOperationResult) (atx : AtomicTx)
      → EndingIs t.userspace_id
          (map answer_of results)
          (run_ops env t seqs results atx)
          (spec_run (map (op_at t) seqs) (view_of atx.contents t.userspace_id))
  unfolding run_ops spec_run run_op
  run_ops-EndingIs [] results atx = (rw append-nil, refl)
  run_ops-EndingIs (seq ∷ seqs) results atx =
      continue-EndingIs seqs results
        (λ item atx'. run_ops-EndingIs seqs (results ++ item ∷ []) atx') _ _
        (run_kind-RoundIs env t.userspace_id (op_at t seq) seq atx (op_kind (op_at t seq).op_type))
