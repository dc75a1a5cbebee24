-- ===== src/Recovery/Runs.antt =====
-- The writes of a collection in any order, and crashes between them and inside them, of
-- engine/collection.go, keys.go and ttl.go.
use file_dbv.Prelude.{ℕ, ◌≡◌, refl, subst, Bool, true, Option, none, some, List, Str, Map, All}
use file_dbv.Result.{ok}
use file_dbv.Json.{Data, is_utf8}
use file_dbv.Store.{Codec}
use file_dbv.Store.RoundTrip.{CodecLaws, HasFields, IsJson}
use file_dbv.Index
use file_dbv.Query.{Format}
use file_dbv.Sidx.{SecondaryIndex}
use file_dbv.Tx.{TxOp}
use file_dbv.Collection.{Collection, CollectionConfig, insert, update, delete}
use file_dbv.Batch.{commit_tx, reserve_id}
use file_dbv.Batch.Bulk.{insert_many, reap_expired}
use file_dbv.Keys.{upsert, compare_and_swap}
use file_dbv.Load.{IndexFile, stored_index, load}
use file_dbv.Recovery.{IsRecoverable}
use file_dbv.Recovery.Kept.{id_seq-IsRecoverable}
use file_dbv.Recovery.Writes.{insert-IsRecoverable, update-IsRecoverable, delete-IsRecoverable}
use file_dbv.Recovery.Batches.{IsStaged, commit_tx-IsRecoverable}
use file_dbv.Recovery.Bulk.{insert_many-IsRecoverable, reap_expired-IsRecoverable}
use file_dbv.Recovery.Keyed.{upsert-IsRecoverable, compare_and_swap-IsRecoverable}
use file_dbv.Recovery.Crash.{
  IsTorn, IsMeta, IsIndexFile, crashed, loaded, load-loaded, loaded-IsRecoverable,
}

module _ (codec : Codec) (f : Format) where
  -- One call that writes, with any result, or a crash and the open after it.
  pub data Step (c : Collection) : Collection → Type 0 where
    inserts :
        (d : Data) (expires_at now : ℕ)
        → HasFields (some d)
        → Step c (insert codec f d expires_at now c).1
    updates :
        (id : ℕ) (d : Data) (expires_at : ℕ) (keep : Bool) (now : ℕ)
        → HasFields (some d)
        → Step c (update codec f id d expires_at keep now c).1
    deletes : (id now : ℕ) → Step c (delete codec f id now c).1
    reserves : Step c (reserve_id c).1
    commits :
        (ops : List TxOp) (now : ℕ)
        → IsStaged ops c.id_seq (λ k. Index.get k c.index ≡ none)
        → Step c (commit_tx codec f ops now c).1
    inserts_many :
        (ds : List Data) (explicit : Option ℕ) (now : ℕ)
        → All (λ d. HasFields (some d)) ds
        → Step c (insert_many codec f ds explicit now c).1
    upserts :
        (key : Str) (d : Data) (now : ℕ)
        → is_utf8 key ≡ true
        → IsJson (some d)
        → Step c (upsert codec f key d now c).1
    swaps :
        (key : Str) (d : Data) (holds : Option Data → ℕ → Bool) (now : ℕ)
        → is_utf8 key ≡ true
        → IsJson (some d)
        → Step c (compare_and_swap codec f key d holds now c).1
    reaps : (now ts : ℕ) → Step c (reap_expired codec f now ts c).1
    crashes :
        (cfg : CollectionConfig) (m : Map Str SecondaryIndex) (tail : Str) (file file' : IndexFile)
        (meta : Option ℕ) (swap : Bool) (c' : Collection)
        → IsTorn tail
        → IsIndexFile codec swap file c
        → IsMeta meta c
        → load codec cfg m (crashed tail file meta swap c) ≡ ok (c', file')
        → Step c c'

  pub data Reaches (c : Collection) : Collection → Type 0 where
    here : Reaches c c
    then_step : (c' c'' : Collection) → Reaches c c' → Step c' c'' → Reaches c c''

  module _ (laws : CodecLaws codec) where
    pub Step-IsRecoverable :
        (c c' : Collection) → Step c c' → IsRecoverable codec c → IsRecoverable codec c'
    unfolding reserve_id
    Step-IsRecoverable c _ (inserts d expires_at now has) h =
        insert-IsRecoverable codec f laws d expires_at now c h has
    Step-IsRecoverable c _ (updates id d expires_at keep now has) h =
        update-IsRecoverable codec f laws id d expires_at keep now c h has
    Step-IsRecoverable c _ (deletes id now) h = delete-IsRecoverable codec f laws id now c h
    Step-IsRecoverable c _ reserves h = id_seq-IsRecoverable codec 1 c h
    Step-IsRecoverable c _ (commits ops now staged) h =
        commit_tx-IsRecoverable codec laws f ops now c h staged
    Step-IsRecoverable c _ (inserts_many ds explicit now has) h =
        insert_many-IsRecoverable codec f laws ds explicit now c h has
    Step-IsRecoverable c _ (upserts key d now valid json) h =
        upsert-IsRecoverable codec f laws key d now c h valid json
    Step-IsRecoverable c _ (swaps key d holds now valid json) h =
        compare_and_swap-IsRecoverable codec f laws key d holds now c h valid json
    Step-IsRecoverable c _ (reaps now ts) h = reap_expired-IsRecoverable codec f laws now ts c h
    Step-IsRecoverable c _ (crashes cfg m tail file file' meta swap c' torn is_file is_meta opened)
          h =
        let made = load-loaded codec cfg m tail file meta swap c h torn is_file in
        let same : loaded codec cfg m meta c ≡ c' = cc in
        subst (IsRecoverable codec) same (loaded-IsRecoverable codec cfg m meta c h is_meta)

    pub Reaches-IsRecoverable :
        (c c' : Collection) → IsRecoverable codec c → Reaches c c' → IsRecoverable codec c'
    Reaches-IsRecoverable c _ h here = h
    Reaches-IsRecoverable c _ h (then_step c' c'' before step) =
        Step-IsRecoverable c' c'' step (Reaches-IsRecoverable c c' h before)

    -- From a recoverable collection, after any sequence of inserts, updates, deletes, reserved
    -- ids, commits, batch inserts, upserts, swaps, reaps and crashes that the model allows (data
    -- that are written are not empty, have texts of valid UTF-8, names in order and at most 9998
    -- levels, and a staged insert has an unused id that was taken), a crash in the middle of an
    -- append is followed by a load that succeeds, finds the same index and the same active segment
    -- as before the crash, leaves this index in index.json, and takes its id counter past every
    -- indexed id. At each crash index.json is missing, has a wrong checksum, points outside of the
    -- files, is up to date, or is not looked at since a swap was recovered.
    pub load-Reaches :
        (cfg : CollectionConfig) (m : Map Str SecondaryIndex) (tail : Str) (file : IndexFile)
        (meta : Option ℕ) (swap : Bool) (c c' : Collection)
        → IsRecoverable codec c
        → Reaches c c'
        → IsTorn tail
        → IsIndexFile codec swap file c'
        → IsMeta meta c'
        → (c'' : Collection) × (load codec cfg m (crashed tail file meta swap c')
            ≡ ok (c'', stored_index c'.index))
          × (c''.index ≡ c'.index)
          × (c''.active.bytes ≡ c'.active.bytes)
          × IsRecoverable codec c''
    load-Reaches cfg m tail file meta swap c c' h run torn is_file is_meta =
        let h' = Reaches-IsRecoverable c c' h run in
        (
          loaded codec cfg m meta c',
          load-loaded codec cfg m tail file meta swap c' h' torn is_file,
          refl,
          refl,
          loaded-IsRecoverable codec cfg m meta c' h' is_meta,
        )
