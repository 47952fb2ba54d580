-- ===== src/Storage/LostUpdates.antt =====
-- Commit, after other requests wrote to the store since BeginAtomic.
use httpkvdb.Base.{◌≡◌, refl, ap, ◌∙◌, false, some, if◌then◌else◌, arith}
use httpkvdb.Base.Bytes.{Bytes, bytes_eq, bytes_key}
use httpkvdb.Base.Dict.{insert, lookup-insert}
use httpkvdb.Model.{Transaction, ok}
use httpkvdb.Storage.Snapshot.{get_from}
use httpkvdb.Storage.Disk.{Env}
use httpkvdb.Storage.Store.{Store, save, get, get_tx}
use httpkvdb.Storage.Atomic.{AtomicTx, clone_snapshot, begin_atomic, commit}
use httpkvdb.Storage.Atomic

module _ {Doc : Type 0} (env : Env Doc) (s : Store Doc) where
  begun :
      (atx : AtomicTx)
      → clone_snapshot env.json s.contents ≡ some s.contents
      → begin_atomic env s ≡ ok atx
      → atx ≡ record { contents = s.contents; closed = false }
  unfolding begin_atomic
  begun atx c b =
      let k : ok (record { contents = s.contents; closed = false }) ≡ ok atx =
        rw (c, begin_atomic) at b in
      cc

  committed_contents :
      (t : Transaction) (s' : Store Doc)
      → (commit env
          (Atomic.save_tx (record { contents = s.contents; closed = false }) t)
          s').2.contents
        ≡ record s.contents { txs = insert s.contents.txs t.tx_id t }
  unfolding commit save Atomic.save_tx
  committed_contents t s' = refl

  module _ (t : Transaction) (s'' : Store Doc)
      (is : s''.contents ≡ record s.contents { txs = insert s.contents.txs t.tx_id t }) where
    replaced-get : (u key : Bytes) → get s'' u key ≡ get s u key
    unfolding get get_from
    replaced-get u key = rw is refl

    replaced-get_tx :
        (tx_id : Bytes)
        → get_tx s'' tx_id ≡ (if bytes_eq t.tx_id tx_id then ok t else get_tx s tx_id)
    unfolding get_tx
    replaced-get_tx tx_id = rw is (ground (arith, lookup-insert s.contents.txs t.tx_id t tx_id))

  -- Where the JSON copy of BeginAtomic reads back as the data, a Commit loses whatever the store
  -- took up in between: all keys read as they did at BeginAtomic, and so do all transactions but
  -- the one that is saved with the commit.
  pub commit_loses :
      (atx : AtomicTx) (done : Transaction)
      → clone_snapshot env.json s.contents ≡ some s.contents
      → begin_atomic env s ≡ ok atx
      → (s' : Store Doc)
      → (let s'' = (commit env (Atomic.save_tx atx done) s').2 in
          ((u key : Bytes) → get s'' u key ≡ get s u key)
          × ((tx_id : Bytes)
              → get_tx s'' tx_id ≡ (if bytes_eq done.tx_id tx_id then ok done else get_tx s tx_id)))
  commit_loses atx done c b s' =
      let is =
        ap (λ x. (commit env (Atomic.save_tx x done) s').2.contents) (begun atx c b)
        ∙ committed_contents done s' in
      (replaced-get done _ is, replaced-get_tx done _ is)
