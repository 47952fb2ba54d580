-- ===== src/Tests/Threads.antt =====
-- Threads on concrete transactions.
use httpkvdb.Base.{◌≡◌, refl, true, false, some, [], ◌∷◌}
use native.Mathlib.Decide.{ℕ_discrete}
use httpkvdb.Base.Int.{pos, int_eq}
use httpkvdb.Base.Bytes.{codes, bytes_eq}
use httpkvdb.Base.Dict.{lookup, insert}
use httpkvdb.Golang.Crypto.{toy_std}
use httpkvdb.Model.{Transaction, TxOperation, TxStatus, ok}
use httpkvdb.Storage.Snapshot.{Snapshot}
use httpkvdb.Storage.Store.{Store, get_tx}
use httpkvdb.Storage.Atomic.{AtomicTx, clone_snapshot, begin_atomic}
use httpkvdb.Tx.Execute.{conclude, run_ops, all_seqs, execute}
use httpkvdb.Tx.Coordinator.{load_owned, owns}
use httpkvdb.Tx.Coordinator
use httpkvdb.Tx.Digest.{digest}
use httpkvdb.Tx.Same.{Ops, with_ops, inserts-SameMap}
use httpkvdb.Tx.Arrival.{EndsAlike, any_order}
use httpkvdb.Threads.Waiting.{Finishes}
use httpkvdb.Threads.Finish.{comes_to_end}
use httpkvdb.Threads.Lock.{lock}
use httpkvdb.Threads.Plan.{run, commit_plan, guarded, close_plan, run_plan, add_plan, perform}
use httpkvdb.Threads.System.{
  idle, planned, running, begun, commit, plan_of, System, update, Reach, start, later, load, enter,
  begin,
}
use httpkvdb.Threads.Serial.{SameOutcome, executions_serial}
use httpkvdb.Threads.Twice.{pending_with, executed_again}
use httpkvdb.Tests.World.{plain_json, calm_io, at_time, alice, an_op, two_ops, with_tx}

abbrev full : Transaction
full = two_ops (codes "EXISTS") TxStatus.waiting_for_ops

abbrev closing : Transaction
closing = record full { commit_received = true; tx_digest = [] }

abbrev working_copy : AtomicTx
working_copy = record { contents = (with_tx full).contents; closed = false }

-- Thread 3 is behind BeginAtomic.
abbrev at_work : System Snapshot
at_work = record {
  shared = record { store = with_tx full; mutex = record { holder = some 3 } };
  pc =
      update (update (update (λ j. idle) 3 (planned (run closing))) 3 (running closing)) 3
        (begun closing working_copy);
}

at_work-Reach : Reach toy_std plain_json (with_tx full) at_work
unfolding plan_of commit_plan guarded close_plan run_plan load_owned lock begin_atomic
    clone_snapshot ℕ_discrete get_tx lookup bytes_eq
at_work-Reach =
    later
      (later (later start 3 (load calm_io 15 alice (codes "t1") full (commit (pos 0) []) refl)) 3
        (enter refl))
      3 (begin calm_io 15 refl)

executions_serial_example :
    SameOutcome
      (codes "t1")
      (conclude
        (at_time 17)
        closing
        (with_tx full)
        (run_ops (at_time 17) closing (all_seqs closing) [] working_copy))
      (execute (at_time 17) closing (with_tx full))
unfolding ℕ_discrete clone_snapshot
executions_serial_example =
    executions_serial toy_std plain_json (λ d. refl) (with_tx full) at_work 3 closing working_copy
      calm_io 17 at_work-Reach refl

abbrev first_put : TxOperation
first_put = an_op (pos 1) (codes "PUT") (codes "a")

abbrev second_put : TxOperation
second_put = an_op (pos 2) (codes "PUT") (codes "a")

abbrev forth : Ops → Ops
forth m = insert (insert m (pos 1) first_put) (pos 2) second_put

abbrev back : Ops → Ops
back m = insert (insert m (pos 2) second_put) (pos 1) first_put

-- Thread 5 waits for thread 3.
abbrev queue : System Snapshot
queue = record { shared = at_work.shared; pc = update at_work.pc 5 (planned (run closing)) }

queue-Reach : Reach toy_std plain_json (with_tx full) queue
unfolding plan_of commit_plan guarded close_plan run_plan load_owned get_tx lookup bytes_eq
    ℕ_discrete
queue-Reach =
    later at_work-Reach 5 (load calm_io 16 alice (codes "t1") full (commit (pos 0) []) refl)

comes_to_end_example : Finishes toy_std plain_json 5 7 queue
comes_to_end_example = comes_to_end toy_std plain_json 5 (with_tx full) queue queue-Reach

-- The second operation of a pending transaction, sent twice.
abbrev half : Transaction
half = record (two_ops (codes "PUT") TxStatus.pending) {
  commit_received = false;
  ops = (pos 1, an_op (pos 1) (codes "PUT") (codes "a")) ∷ [];
}

abbrev committed_store : Store Snapshot
committed_store = with_tx (two_ops (codes "PUT") TxStatus.committed)

executed_again_example :
    (get_tx
        (perform (at_time 15) (add_plan (at_time 15) half (codes "t1") second_put) committed_store)
        (codes "t1")
      ≡ ok (pending_with (at_time 15) half second_put))
    × ((Coordinator.commit
          (at_time 16)
          (perform
            (at_time 15)
            (add_plan (at_time 15) half (codes "t1") second_put)
            committed_store)
          alice
          (codes "t1")
          (pos 0)
          []).1
        ≡ (execute
            (at_time 16)
            (record (pending_with (at_time 15) half second_put) {
              commit_received = true;
              tx_digest = [];
            })
            (perform
              (at_time 15)
              (add_plan (at_time 15) half (codes "t1") second_put)
              committed_store)).1)
unfolding lookup insert bytes_eq
executed_again_example =
    executed_again (at_time 15) (at_time 16) committed_store alice half second_put [] refl refl refl
      refl refl refl refl refl

any_order_example :
    (digest toy_std (with_ops (forth []) half) ≡ digest toy_std (with_ops (back []) half))
    × EndsAlike
        (codes "t1")
        (execute (at_time 15) (with_ops (forth []) half) (with_tx half)).1
        (execute (at_time 15) (with_ops (back []) half) (with_tx half)).1
unfolding clone_snapshot
any_order_example =
    any_order (at_time 15) half (forth []) (back []) (with_tx half)
      (inserts-SameMap [] (pos 1) (pos 2) first_put second_put (λ p. cc) tt) (λ d. refl)
