-- ===== src/Compaction/Resolved.antt =====
-- The merge of engine/compactor.go against the view of a log: the last entry of an id counts.
use file_dbv.Prelude.{
  ℕ, ◌≡◌, refl, sym, ap, ◌∙◌, subst, Bool, true, false, Bool-cases, Option, none, some, List, [],
  ◌∷◌, ◌++◌, Map, lookup, insert as put, lookup-insert, beq_refl, ◌⊎◌, ◌==◌, nat_eq, nat_beq_iff,
  if◌then◌else◌, inl, inr, HasDistinctKeys, insert-HasDistinctKeys,
}
use file_dbv.Result.{Result, ok, ◌>>=◌, >>=-eq-ok}
use file_dbv.Store.{Entry, Codec}
use file_dbv.Segment.{Segment, scan_all}
use file_dbv.Compaction.{latest_of, survives, surviving, latest_in, resolve_entries}

-- The entries of the segments, in their order.
unfoldable pub all_entries : Codec → List Segment → Result (List Entry)
all_entries codec [] = ok []
all_entries codec (s ∷ segs) =
    scan_all codec s >>= λ es. all_entries codec segs >>= λ rest. ok (es ++ rest)

abbrev pub or_else : Option Entry → Option Entry → Option Entry
or_else none b = b
or_else (some a) b = some a

-- The last entry of an id.
unfoldable pub last_of : ℕ → List Entry → Option Entry
last_of k [] = none
last_of k (e ∷ es) = or_else (last_of k es) (if e.id == k then some e else none)

abbrev pub live_entry : ℕ → Option Entry → Option Entry
live_entry now none = none
live_entry now (some e) = if survives now e then some e else none

-- The entry of an id that a log shows: the last one, if it is neither a tombstone nor expired.
abbrev pub live : ℕ → ℕ → List Entry → Option Entry
live now k es = live_entry now (last_of k es)

-- No id stands twice, and every entry counts.
abbrev pub IsCompact : ℕ → List Entry → Type 0
IsCompact now [] = Unit
IsCompact now (e ∷ es) = (last_of e.id es ≡ none) × (survives now e ≡ true) × IsCompact now es

or_else_assoc : (a b c : Option Entry) → or_else (or_else a b) c ≡ or_else a (or_else b c)
or_else_assoc none b c = refl
or_else_assoc (some x) b c = refl

or_else-none : (a : Option Entry) → or_else a none ≡ a
or_else-none none = refl
or_else-none (some x) = refl

pub last_of-append :
    (k : ℕ) (es later : List Entry)
    → last_of k (es ++ later) ≡ or_else (last_of k later) (last_of k es)
unfolding last_of
last_of-append k [] later = sym (or_else-none (last_of k later))
last_of-append k (e ∷ es) later =
    rw (last_of-append k es later)
      (or_else_assoc (last_of k later) (last_of k es) (if e.id == k then some e else none))

lookup-latest_of :
    (k : ℕ) (es : List Entry) (m : Map ℕ Entry)
    → lookup k (latest_of es m) ≡ or_else (last_of k es) (lookup k m)
unfolding latest_of last_of
lookup-latest_of k [] m = refl
lookup-latest_of k (e ∷ es) m =
    lookup-latest_of k es (put e.id e m)
    ∙ (rw (lookup-insert e.id k e m) (over (e.id == k))
        ∙ sym (or_else_assoc (last_of k es) (if e.id == k then some e else none) (lookup k m)))
  where
    over :
        (b : Bool)
        → or_else (last_of k es) (if b then some e else lookup k m)
          ≡ or_else (last_of k es) (or_else (if b then some e else none) (lookup k m))
    over true = refl
    over false = refl

-- Each entry stands under its id.
abbrev IsKeyed : Map ℕ Entry → Type 0
IsKeyed m = (k : ℕ) (e : Entry) → lookup k m ≡ some e → e.id ≡ k

latest_of-append :
    (es later : List Entry) (m : Map ℕ Entry)
    → latest_of (es ++ later) m ≡ latest_of later (latest_of es m)
unfolding latest_of
latest_of-append [] later m = refl
latest_of-append (e ∷ es) later m = latest_of-append es later (put e.id e m)

latest_of-HasDistinctKeys :
    (es : List Entry) (m : Map ℕ Entry) → HasDistinctKeys m → HasDistinctKeys (latest_of es m)
unfolding latest_of
latest_of-HasDistinctKeys [] m h = h
latest_of-HasDistinctKeys (e ∷ es) m h =
    latest_of-HasDistinctKeys es (put e.id e m) (insert-HasDistinctKeys e.id e m h)

some_inj : {a b : Entry} → some a ≡ some b → a ≡ b
some_inj h = cc

put-IsKeyed : (e : Entry) (m : Map ℕ Entry) → IsKeyed m → IsKeyed (put e.id e m)
put-IsKeyed e m h k x at = over (Bool-cases (e.id == k))
  where
    over : ((e.id == k) ≡ true) ⊎ ((e.id == k) ≡ false) → x.id ≡ k
    over (inl eq) =
        let same : e ≡ x = some_inj (sym (lookup-insert e.id k e m ∙ (rw eq refl)) ∙ at) in
        ap (λ (y : Entry). y.id) (sym same) ∙ (nat_beq_iff e.id k).0 eq
    over (inr eq) = h k x (sym (lookup-insert e.id k e m ∙ (rw eq refl)) ∙ at)

latest_of-IsKeyed : (es : List Entry) (m : Map ℕ Entry) → IsKeyed m → IsKeyed (latest_of es m)
unfolding latest_of
latest_of-IsKeyed [] m h = h
latest_of-IsKeyed (e ∷ es) m h = latest_of-IsKeyed es (put e.id e m) (put-IsKeyed e m h)

tail-IsKeyed :
    (id : ℕ) (e : Entry) (m : Map ℕ Entry) → lookup id m ≡ none → IsKeyed ((id, e) ∷ m) → IsKeyed m
unfolding lookup
tail-IsKeyed id e m fresh keyed k x at = over (Bool-cases (id == k))
  where
    over : ((id == k) ≡ true) ⊎ ((id == k) ≡ false) → x.id ≡ k
    over (inl eq) =
        let same = (nat_beq_iff id k).0 eq in
        let missing : lookup k m ≡ none = subst (λ (j : ℕ). lookup j m ≡ none) same fresh in
        absurd cc
    over (inr eq) = keyed k x ((rw eq refl) ∙ at)

head_id : (id : ℕ) (e : Entry) (m : Map ℕ Entry) → IsKeyed ((id, e) ∷ m) → e.id ≡ id
unfolding lookup
head_id id e m keyed = keyed id e (rw (beq_refl id) refl)

last_of-surviving :
    (now k : ℕ) (m : Map ℕ Entry)
    → HasDistinctKeys m
    → IsKeyed m
    → last_of k (surviving now m) ≡ live_entry now (lookup k m)
unfolding surviving last_of lookup
last_of-surviving now k [] distinct keyed = refl
last_of-surviving now k ((id, e) ∷ m) (fresh, distinct) keyed =
    over (Bool-cases (id == k)) (Bool-cases (survives now e))
      (last_of-surviving now k m distinct (tail-IsKeyed id e m fresh keyed))
  where
    none_left :
        (id == k) ≡ true
        → last_of k (surviving now m) ≡ live_entry now (lookup k m)
        → last_of k (surviving now m) ≡ none
    none_left eq rest =
        rest
        ∙ ap (live_entry now) (subst (λ (j : ℕ). lookup j m ≡ none) ((nat_beq_iff id k).0 eq) fresh)

    not_here : (id == k) ≡ false → (e.id == k) ≡ false
    not_here eq = ap (λ (j : ℕ). j == k) (head_id id e m keyed) ∙ eq

    over :
        ((id == k) ≡ true) ⊎ ((id == k) ≡ false)
        → (survives now e ≡ true) ⊎ (survives now e ≡ false)
        → last_of k (surviving now m) ≡ live_entry now (lookup k m)
        → last_of k (surviving now ((id, e) ∷ m)) ≡ live_entry now (lookup k ((id, e) ∷ m))
    over (inl eq) (inl s) rest =
        rw
          (
            s,
            eq,
            none_left eq rest,
            (nat_beq_iff e.id k).1 (head_id id e m keyed ∙ (nat_beq_iff id k).0 eq),
          )
          (rw s refl)
    over (inl eq) (inr s) rest = rw (s, eq, none_left eq rest) (rw s refl)
    over (inr eq) (inl s) rest =
        rw (s, eq, not_here eq) (or_else-none (last_of k (surviving now m)) ∙ rest)
    over (inr eq) (inr s) rest = rw (s, eq) rest

surviving-IsCompact :
    (now : ℕ) (m : Map ℕ Entry) → HasDistinctKeys m → IsKeyed m → IsCompact now (surviving now m)
unfolding surviving
surviving-IsCompact now [] distinct keyed = tt
surviving-IsCompact now ((id, e) ∷ m) (fresh, distinct) keyed =
    let keyed' = tail-IsKeyed id e m fresh keyed in
    let rest = surviving-IsCompact now m distinct keyed' in
    elim (Bool-cases (survives now e)) [
      | inr s ↦ rw s rest
      | inl s ↦ rw s (
        last_of-surviving now e.id m distinct keyed'
            ∙ ap (live_entry now)
                (subst (λ (j : ℕ). lookup j m ≡ none) (sym (head_id id e m keyed)) fresh),
        s,
        rest,
      )
    ]

empty-IsKeyed : IsKeyed []
unfolding lookup
empty-IsKeyed k e at = absurd cc

last_of-latest : (k : ℕ) (es : List Entry) → lookup k (latest_of es []) ≡ last_of k es
unfolding lookup
last_of-latest k es = lookup-latest_of k es [] ∙ or_else-none (last_of k es)

module _ (codec : Codec) where
  latest_in_lem :
      (segs : List Segment) (m latest : Map ℕ Entry)
      → latest_in codec segs m ≡ ok latest
      → (es : List Entry) × (all_entries codec segs ≡ ok es) × (latest ≡ latest_of es m)
  unfolding latest_in all_entries latest_of
  latest_in_lem [] m latest h = ([], refl, cc)
  latest_in_lem (s ∷ segs) m latest h =
      let (es, scanned, h') = >>=-eq-ok (scan_all codec s) _ h in
      let (rest, all, same) = latest_in_lem segs (latest_of es m) latest h' in
      (es ++ rest, rw (scanned, all) refl, same ∙ sym (latest_of-append es rest m))

  live_entry_idem :
      (now : ℕ) (o : Option Entry) → live_entry now (live_entry now o) ≡ live_entry now o
  live_entry_idem now none = refl
  live_entry_idem now (some e) = elim (Bool-cases (survives now e)) [
    | inl s ↦ rw s (rw s refl)
    | inr s ↦ rw s refl
  ]

  live_entry-or_else :
      (now : ℕ) (later before : Option Entry)
      → live_entry now (or_else later (live_entry now before))
        ≡ live_entry now (or_else later before)
  live_entry-or_else now none before = live_entry_idem now before
  live_entry-or_else now (some e) before = refl

  -- When the entries of a compaction are resolved, the segments can be read, no id stands twice in
  -- the result, every entry in it is neither a tombstone nor expired, and whatever entries follow,
  -- the last entry of an id that is neither a tombstone nor expired is the same behind the result
  -- as behind the entries of the segments.
  pub resolve_entries_lem :
      (now : ℕ) (segs : List Segment) (out : List Entry)
      → resolve_entries codec now segs ≡ ok out
      → (es : List Entry) × (all_entries codec segs ≡ ok es)
        × IsCompact now out
        × ((k : ℕ) (later : List Entry) → live now k (out ++ later) ≡ live now k (es ++ later))
  unfolding resolve_entries
  resolve_entries_lem now segs out h =
      let (latest, made, done) = >>=-eq-ok (latest_in codec segs []) _ h in
      let (es, all, same) = latest_in_lem segs [] latest made in
      let distinct : HasDistinctKeys latest = rw same (latest_of-HasDistinctKeys es [] tt) in
      let keyed : IsKeyed latest = rw same (latest_of-IsKeyed es [] empty-IsKeyed) in
      let out_is : surviving now latest ≡ out = cc in
      (
        es,
        all,
        subst (IsCompact now) out_is (surviving-IsCompact now latest distinct keyed),
        λ k later.
            let last_out : last_of k out ≡ live_entry now (last_of k es) =
              ap (last_of k) (sym out_is)
              ∙ (last_of-surviving now k latest distinct keyed
                  ∙ ap (live_entry now) (ap (lookup k) same ∙ last_of-latest k es)) in
            ap (live_entry now)
              (last_of-append k out later ∙ ap (or_else (last_of k later)) last_out)
            ∙ (live_entry-or_else now (last_of k later) (last_of k es)
                ∙ ap (live_entry now) (sym (last_of-append k es later))),
      )
