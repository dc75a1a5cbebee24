-- ===== src/Auth/Scopes.antt =====
-- Which methods a key needs write access for, of internal/auth/scope.go.
use file_dbv.Prelude.{
  ◌≡◌, ◌≢◌, refl, Bool, true, false, not, none, some, List, [], ◌∷◌, ◌++◌, Str, All, ◌==◌, nat_eq,
  nat_beq_iff, str_eq, str_beq_iff, arith, Bool-cases, inl, inr, subst, if◌then◌else◌,
}
use file_dbv.Auth.{
  listed, write_methods, read_methods, after_last_slash, method_name, method_requires_write,
}

-- A test that fails on every listed name fails on a name that is listed.
listed_fails :
    (test : Str → Bool) (name : Str) (names : List Str)
    → All (λ n. test n ≡ false) names
    → listed name names ≡ true
    → test name ≡ false
listed_fails test name [] h there = cc
listed_fails test name (n ∷ names) h there = elim (Bool-cases (n == name)) [
  | inl e ↦ subst (λ (m : Str). test m ≡ false) ((str_beq_iff n name).0 e) h.0
  | inr e ↦ listed_fails test name names h.1 (rw e at there)
]

write_methods_lem :
    (name : Str) → listed name write_methods ≡ true → listed name read_methods ≡ false
write_methods_lem name =
    listed_fails (λ n. listed n read_methods) name write_methods
      (
        refl,
        (
          refl,
          (
            refl,
            (refl, (refl, (refl, (refl, (refl, (refl, (refl, (refl, (refl, (refl, tt)))))))))),
          ),
        ),
      )

no_slash : (name : Str) → All (λ x. x ≢ 47) name → after_last_slash name ≡ none
unfolding after_last_slash
no_slash [] h = refl
no_slash (x ∷ xs) h = ground (arith, no_slash xs h.1, nat_beq_iff x 47, h.0)

last_slash :
    (path name : Str) → All (λ x. x ≢ 47) name → after_last_slash (path ++ 47 ∷ name) ≡ some name
unfolding after_last_slash
last_slash [] name h = ground (arith, no_slash name h)
last_slash (x ∷ xs) name h = ground (arith, last_slash xs name h)

requires :
    (b c : Bool) → (b ≡ true → c ≡ false) → (if b then true else if c then false else true) ≡ not c
requires true c h = rw (h refl) refl
requires false true h = refl
requires false false h = refl

-- Under any service path, a method needs write access exactly when its name, which has no slash,
-- is not one of the known reads; so an unknown method needs it, and no method is in both tables.
pub method_requires_write_lem :
    (path name : Str)
    → All (λ x. x ≢ 47) name
    → method_requires_write (path ++ 47 ∷ name) ≡ not (listed name read_methods)
unfolding method_requires_write
method_requires_write_lem path name h =
    rw (method_name, last_slash path name h) (requires _ _ (write_methods_lem name))
