-- ===== src/Collection/Written.antt =====
-- What a write of engine/collection.go that is appended, indexed and published leaves to be read.
use file_dbv.Prelude.{
  Map, Str, ℕ, ◌≡◌, refl, sym, ap, ◌∙◌, false, some, [], ◌∷◌, ◌++◌, lookup-insert, beq_refl, nat_eq,
}
use file_dbv.Result.{ok}
use file_dbv.Store.{Entry, Codec}
use file_dbv.Store.RoundTrip.{CodecLaws, HasFields}
use file_dbv.Segment.{Segment, append}
use file_dbv.Segment.Append.{append_inversion, append-IsWellFormed, read_at-Appended}
use file_dbv.Index
use file_dbv.Index.{Index, IndexEntry}
use file_dbv.Query.{Format}
use file_dbv.Sidx.{SecondaryIndex}
use file_dbv.Collection.{
  rotate_if_full, emit, key_of, Collection, segment_by_path_in, event_of, location, read_location,
  get, expired,
}
use file_dbv.Collection.Quota.{rotate-index}
use file_dbv.Collection.Rotation.{IsReady, rotate-IsReady, rotate-read_location}

-- The collection after the append of `e`, with the secondary indexes `m`; a full segment is rotated.
abbrev pub written : Entry → Map Str SecondaryIndex → ℕ → Segment → Collection → Collection
written e m off active c = emit (event_of e) (
    rotate_if_full (record c {
      active = active;
      index = Index.set e.id (location c off e) c.index;
      sidx_map = m;
      published = c.published ++ e ∷ [];
    }))

pub written-index :
    (e : Entry) (m : Map Str SecondaryIndex) (off : ℕ) (active : Segment) (c : Collection)
    → (written e m off active c).index ≡ Index.set e.id (location c off e) c.index
unfolding emit
written-index e m off active c = rotate-index _

module _ (codec : Codec) (f : Format) where
  module _ (laws : CodecLaws codec) where
    pub written_reads :
        (e : Entry) (m : Map Str SecondaryIndex) (off : ℕ) (active : Segment) (c : Collection)
        → IsReady c
        → HasFields e.fields
        → append codec c.active e ≡ ok (off, active)
        → IsReady (written e m off active c)
          × (read_location codec f e.id (location c off e) (written e m off active c)
              ≡ ok (record {
                id = e.id;
                key = key_of e.fields;
                rev = e.rev;
                ts = e.ts;
                fields = e.fields;
              }))
    written_reads e m off active c ready has wrote =
        let a = append_inversion codec laws c.active active e off has wrote in
        let c1 = record c {
          active = active;
          index = Index.set e.id (location c off e) c.index;
          sidx_map = m;
          published = c.published ++ e ∷ [];
        } in
        let ready1 : IsReady c1 = record {
          active = append-IsWellFormed codec laws c.active active e off ready.active a;
          fresh = ap (λ (n : ℕ). segment_by_path_in n c.sealed) a.path ∙ ready.fresh;
        } in
        (
          rotate-IsReady (event_of e) c1 ready1,
          rotate-read_location codec f (event_of e) c1 e.id (location c off e) _ ready1 (sym a.path)
              (read_at-Appended codec laws c.active active e off ready.active a),
        )

    get_found :
        (id now : ℕ) (loc : IndexEntry) (c : Collection)
        → Index.get id c.index ≡ some loc
        → expired loc.expires_at now ≡ false
        → get codec f id now c ≡ read_location codec f id loc c
    unfolding get
    get_found id now loc c at live = rw (get, at, live) refl

    set-get :
        (id : ℕ) (loc : IndexEntry) (idx : Index) → Index.get id (Index.set id loc idx) ≡ some loc
    unfolding Index.get Index.set
    set-get id loc idx = rw (lookup-insert id id loc idx, beq_refl id) refl

    pub get-written :
        (e : Entry) (m : Map Str SecondaryIndex) (off later : ℕ) (active : Segment) (c : Collection)
        → IsReady c
        → HasFields e.fields
        → append codec c.active e ≡ ok (off, active)
        → expired e.expires_at later ≡ false
        → get codec f e.id later (written e m off active c)
          ≡ ok (record {
            id = e.id;
            key = key_of e.fields;
            rev = e.rev;
            ts = e.ts;
            fields = e.fields;
          })
    get-written e m off later active c ready has wrote live =
        get_found e.id later (location c off e) (written e m off active c)
          (ap (Index.get e.id) (written-index e m off active c)
            ∙ set-get e.id (location c off e) c.index)
          live
        ∙ (written_reads e m off active c ready has wrote).1
