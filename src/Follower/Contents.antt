-- ===== src/Follower/Contents.antt =====
-- Records of engine/collection.go stay readable when others are written behind them.
use file_dbv.Prelude.{
  ℕ, zero, suc, ◌≡◌, ◌<◌, ◌≤◌, refl, sym, ap, ◌∙◌, Bool, true, Bool-cases, Option, none, some, List,
  [], ◌∷◌, ◌++◌, inl, inr, ◌⊎◌, nat_eq, nat_beq, nat_beq_iff, leb, length, drop, arith,
  if◌then◌else◌,
}
use file_dbv.Result.{Result, ok, err, segment_not_found, empty_at_offset, ◌>>=◌, >>=-eq-ok}
use file_dbv.Store.{Entry, Codec}
use file_dbv.Segment.{Segment, append, read_at, read_first, seal, split_lines}
use file_dbv.Segment.Append.{append_line, read_at-append_before}
use file_dbv.Index.{IndexEntry}
use file_dbv.Query.{Format}
use file_dbv.Collection.{
  Collection, Record, WatchEvent, key_of, rotate_if_full, rotate_segment, emit, segment_by_path,
  segment_by_path_in, read_location,
}
use file_dbv.Collection.Rotation.{IsReady}

-- Where a path is found when a segment is sealed behind the others.
segment_by_path_in-append :
    (p : ℕ) (ss : List Segment) (s : Segment)
    → segment_by_path_in p (ss ++ s ∷ [])
      ≡ (elim (segment_by_path_in p ss) as (λ x. Option Segment) [
        | some t ↦ some t
        | none ↦ if nat_beq s.path p then some s else none
      ])
unfolding segment_by_path_in
segment_by_path_in-append p [] s = refl
segment_by_path_in-append p (t ∷ ss) s = ground (arith, segment_by_path_in-append p ss s)

drop_all : {A : Type 0} (n : ℕ) (xs : List A) → length xs ≤ n → drop n xs ≡ []
drop_all zero [] h = refl
drop_all (suc n) [] h = refl
drop_all zero (x ∷ xs) h = absurd (omega (arith, h))
drop_all (suc n) (x ∷ xs) h = drop_all n xs (omega (arith, h))

-- What a record reads as.
abbrev pub record_of : Entry → ℕ → Record
record_of e rev = record {
  id = e.id;
  key = key_of e.fields;
  rev = rev;
  ts = e.ts;
  fields = e.fields;
}

module _ (codec : Codec) (f : Format) where
  read_at-before :
      (s : Segment) (off : ℕ) (e : Entry) → read_at codec s off ≡ ok e → off < length s.bytes
  unfolding read_at read_first split_lines
  read_at-before s off e h = elim (Bool-cases (leb (length s.bytes) off)) [
    | inr before ↦ ground (arith, before)
    | inl past ↦
        (let gone : drop off s.bytes ≡ [] = drop_all off s.bytes (ground (arith, past)) in
          let failed : read_at codec s off ≡ err empty_at_offset = rw (read_at, gone) refl in
          absurd cc)
  ]

  -- What is read in the segment of a location.
  abbrev read_in : ℕ → IndexEntry → Option Segment → Result Record
  read_in id loc o = elim o as (λ x. Result Record) [
    | none ↦ err segment_not_found
    | some s ↦
        (read_at codec s loc.offset >>= λ e.
        ok (record { id = id; key = key_of e.fields; rev = loc.rev; ts = e.ts; fields = e.fields }))
  ]

  read_location-in :
      (id : ℕ) (loc : IndexEntry) (c : Collection)
      → read_location codec f id loc c ≡ read_in id loc (segment_by_path loc.segment_path c)
  unfolding read_location
  read_location-in id loc c = refl

  abbrev found_in : ℕ → Segment → Option Segment → Option Segment
  found_in p active o = elim o as (λ x. Option Segment) [
    | some t ↦ some t
    | none ↦ if nat_beq active.path p then some active else none
  ]

  by_path :
      (p : ℕ) (c : Collection)
      → segment_by_path p c ≡ found_in p c.active (segment_by_path_in p c.sealed)
  unfolding segment_by_path
  by_path p c = refl

  -- A record that is read is in a segment.
  location-cases :
      (id : ℕ) (loc : IndexEntry) (c : Collection) (r : Record)
      → read_location codec f id loc c ≡ ok r
      → ((s : Segment) × (segment_by_path_in loc.segment_path c.sealed ≡ some s)
          × (read_in id loc (some s) ≡ ok r))
        ⊎ ((segment_by_path_in loc.segment_path c.sealed ≡ none)
            × (c.active.path ≡ loc.segment_path)
            × (read_in id loc (some c.active) ≡ ok r))
  location-cases id loc c r h = over (segment_by_path_in loc.segment_path c.sealed) refl
    where
      h' :
          read_in id loc
            (found_in loc.segment_path c.active (segment_by_path_in loc.segment_path c.sealed))
          ≡ ok r
      h' =
          ap (read_in id loc) (sym (by_path loc.segment_path c))
          ∙ (sym (read_location-in id loc c) ∙ h)

      over :
          (o : Option Segment)
          → segment_by_path_in loc.segment_path c.sealed ≡ o
          → ((s : Segment) × (segment_by_path_in loc.segment_path c.sealed ≡ some s)
              × (read_in id loc (some s) ≡ ok r))
            ⊎ ((segment_by_path_in loc.segment_path c.sealed ≡ none)
                × (c.active.path ≡ loc.segment_path)
                × (read_in id loc (some c.active) ≡ ok r))
      over (some s) is =
          inl (s, is, ap (λ o. read_in id loc (found_in loc.segment_path c.active o)) (sym is) ∙ h')
      over none is = elim (Bool-cases (nat_beq c.active.path loc.segment_path)) [
        | inl here ↦ inr (
          is,
          (nat_beq_iff c.active.path loc.segment_path).0 here,
          ap (λ (b : Bool). read_in id loc (if b then some c.active else none)) (sym here)
              ∙ (ap (λ o. read_in id loc (found_in loc.segment_path c.active o)) (sym is) ∙ h'),
        )
        | inr not_here ↦
            (let nowhere : err segment_not_found ≡ ok r =
                ap (λ (b : Bool). read_in id loc (if b then some c.active else none)) (sym not_here)
                ∙ (ap (λ o. read_in id loc (found_in loc.segment_path c.active o)) (sym is) ∙ h') in
              absurd cc)
      ]

  read_by :
      (id : ℕ) (loc : IndexEntry) (c : Collection) (s : Segment) (r : Record)
      → segment_by_path loc.segment_path c ≡ some s
      → read_in id loc (some s) ≡ ok r
      → read_location codec f id loc c ≡ ok r
  read_by id loc c s r found reads = read_location-in id loc c ∙ (ap (read_in id loc) found ∙ reads)

  -- A record stays readable when an entry is appended.
  pub append-keeps :
      (c c1 : Collection) (e : Entry) (off : ℕ) (active : Segment)
      → IsReady c
      → append codec c.active e ≡ ok (off, active)
      → c1.sealed ≡ c.sealed
      → c1.active ≡ active
      → (k : ℕ) (loc : IndexEntry) (r : Record) → read_location codec f k loc c ≡ ok r
      → read_location codec f k loc c1 ≡ ok r
  append-keeps c c1 e off active ready wrote same_sealed same_active k loc r h =
      elim (location-cases k loc c r h) [
        | inl (s, found, reads) ↦
            read_by k loc c1 s r
              (by_path loc.segment_path c1
                ∙ ap (found_in loc.segment_path c1.active)
                    (ap (segment_by_path_in loc.segment_path) same_sealed ∙ found))
              reads
        | inr (not_sealed, there, reads) ↦
            (let (line, bytes, path) = append_line codec c.active active e off wrote in
              let (e', at, made) = >>=-eq-ok (read_at codec c.active loc.offset) _ reads in
              let before = read_at-before c.active loc.offset e' at in
              let same =
                read_at-append_before codec c.active active e off loc.offset ready.active wrote
                  (omega (arith, before, ready.active.sized)) in
              let here : nat_beq active.path loc.segment_path ≡ true =
                (nat_beq_iff active.path loc.segment_path).1 (path ∙ there) in
              read_by k loc c1 active r
                (by_path loc.segment_path c1
                  ∙ ap (found_in loc.segment_path c1.active)
                      (ap (segment_by_path_in loc.segment_path) same_sealed ∙ not_sealed)
                  ∙ ap (λ (s : Segment). if nat_beq s.path loc.segment_path then some s else none)
                      same_active
                  ∙ ap (λ (b : Bool). if b then some active else none) here)
                (ap
                    (λ (x : Result Entry). x >>= λ e''. ok (record {
                      id = k;
                      key = key_of e''.fields;
                      rev = loc.rev;
                      ts = e''.ts;
                      fields = e''.fields;
                    }))
                    same
                  ∙ reads))
      ]

  -- A record stays readable when a full segment is sealed.
  pub rotate-keeps :
      (ev : WatchEvent) (c : Collection) (k : ℕ) (loc : IndexEntry) (r : Record)
      → read_location codec f k loc c ≡ ok r
      → read_location codec f k loc (emit ev (rotate_if_full c)) ≡ ok r
  unfolding rotate_if_full rotate_segment emit seal
  rotate-keeps ev c k loc r h = elim (Bool-cases (leb c.cfg.segment_max_size c.active.size)) [
    | inr room ↦ rw room (
        read_location-in k loc _
        ∙ (ap (read_in k loc) (by_path loc.segment_path _ ∙ sym (by_path loc.segment_path c))
            ∙ (sym (read_location-in k loc c) ∙ h)))
    | inl full ↦ rw full (elim (location-cases k loc c r h) [
      | inl (s, found, reads) ↦
          read_by k loc _ s r
            (by_path loc.segment_path _
              ∙ ap (found_in loc.segment_path _) (
                  segment_by_path_in-append loc.segment_path c.sealed (seal c.active)
                  ∙ ap (found_in loc.segment_path (seal c.active)) found))
            reads
      | inr (not_sealed, there, reads) ↦
          (let here : nat_beq c.active.path loc.segment_path ≡ true =
              (nat_beq_iff c.active.path loc.segment_path).1 there in
            read_by k loc _ (seal c.active) r
              (by_path loc.segment_path _
                ∙ ap (found_in loc.segment_path _) (
                    segment_by_path_in-append loc.segment_path c.sealed (seal c.active)
                    ∙ ap (found_in loc.segment_path (seal c.active)) not_sealed
                    ∙ ap (λ (b : Bool). if b then some (seal c.active) else none) here))
              (unfold read_at in reads))
    ])
  ]
