-- ===== src/Core/Attachments/Laws.antt =====
-- About crates/evalhub-core/src/validate.rs: the set of attachment paths.
use evalhub.Base.{
  ℕ, ◌+◌, String, ◌≡◌, ◌≢◌, refl, ◌↔◌, true, false, ◌||◌, Option, none, some, List, [], ◌∷◌, arith,
  inl, inr, Option-cases, str_eq, eq_iff, ◌>>=◌,
}
use evalhub.Base.Lists.{All, any, contains, filter_map}
use evalhub.Base.Text.{split, strip_prefix}
use evalhub.Json.{Value, Members, get, get_key, as_str, as_array}
use evalhub.Core.Attachments.{
  path_fault, attachment_step, attachment_loop, attachment_paths, ref_known,
}

-- A relative path that cannot leave the record's directory.
abbrev pub IsClean : String → Type 0
IsClean p = (p ≢ "") × (strip_prefix "/" p ≡ none) × All (λ seg. seg ≢ "..") (split b'/' p)

abbrev pub IsDistinct : List String → Type 0
IsDistinct [] = Unit
IsDistinct (p ∷ ps) = (contains ps p ≡ false) × IsDistinct ps

-- The paths that the array gives as text, in order.
abbrev pub given_paths : List Value → List String
given_paths attachments = filter_map (λ a. get_key a "path" >>= as_str) attachments

-- Each path is clean, and none is among those before it.
abbrev pub IsAdmissible : List String → List String → Type 0
IsAdmissible seen [] = Unit
IsAdmissible seen (p ∷ ps) = IsClean p × (contains seen p ≡ false) × IsAdmissible (p ∷ seen) ps

no_dot_dot :
    (segs : List String) → any (λ seg. str_eq seg "..") segs ≡ false → All (λ seg. seg ≢ "..") segs
no_dot_dot [] h = tt
no_dot_dot (s ∷ segs) h = (ground (arith, eq_iff s ".."), no_dot_dot segs (ground arith))

dot_dot_free :
    (segs : List String) → All (λ seg. seg ≢ "..") segs → any (λ seg. str_eq seg "..") segs ≡ false
dot_dot_free [] h = refl
dot_dot_free (s ∷ segs) h = ground (arith, eq_iff s "..", dot_dot_free segs h.1)

path_fault-IsClean :
    (seen : List String) (p : String)
    → path_fault seen p ≡ none
    → IsClean p × (contains seen p ≡ false)
unfolding path_fault
path_fault-IsClean seen p h = (
  (ground (arith, eq_iff p ""), ground arith, no_dot_dot (split b'/' p) (ground arith)),
  ground arith,
)

path_fault-none :
    (seen : List String) (p : String)
    → IsClean p
    → contains seen p ≡ false
    → path_fault seen p ≡ none
unfolding path_fault
path_fault-none seen p c n = ground (arith, eq_iff p "", c.1, dot_dot_free (split b'/' p) c.2)

abbrev IsGood : List String → Type 0
IsGood seen = All IsClean seen × IsDistinct seen

attachment_step-IsGood :
    (i : ℕ) (seen : List String) (a : Value) → IsGood seen → IsGood (attachment_step i seen a).0
unfolding attachment_step
attachment_step-IsGood i seen a g = elim (Option-cases (get_key a "path" >>= as_str)) [
  | inl missing ↦ rw missing g
  | inr (p, found) ↦ elim (Option-cases (path_fault seen p)) [
    | inl fine ↦
        let (clean, fresh) = path_fault-IsClean seen p fine in
        rw (found, fine) ((clean, g.0), (fresh, g.1))
    | inr (why, bad) ↦ rw (found, bad) g
  ]
]

attachment_loop-IsGood :
    (i : ℕ) (seen : List String) (as' : List Value)
    → IsGood seen
    → IsGood (attachment_loop i seen as').0
unfolding attachment_loop
attachment_loop-IsGood i seen [] g = g
attachment_loop-IsGood i seen (a ∷ rest) g =
    attachment_loop-IsGood (i + 1) (attachment_step i seen a).0 rest
      (attachment_step-IsGood i seen a g)

-- Whatever the object holds, the set of attachment paths has only relative paths without `..`,
-- each once.
pub attachment_paths-IsClean :
    (obj : Members) → All IsClean (attachment_paths obj).0 × IsDistinct (attachment_paths obj).0
unfolding attachment_paths
attachment_paths-IsClean obj = elim (Option-cases (get obj "attachments" >>= as_array)) [
  | inl missing ↦ rw missing (tt, tt)
  | inr (attachments, found) ↦ rw found (attachment_loop-IsGood 0 [] attachments (tt, tt))
]

loop-IsAdmissible :
    (i : ℕ) (seen : List String) (as' : List Value)
    → (attachment_loop i seen as').1 ≡ []
    → IsAdmissible seen (given_paths as')
unfolding attachment_loop attachment_step
loop-IsAdmissible i seen [] h = tt
loop-IsAdmissible i seen (a ∷ rest) h = elim (Option-cases (get_key a "path" >>= as_str)) [
  | inl missing ↦ rw missing (loop-IsAdmissible (i + 1) seen rest (rw missing at h))
  | inr (p, found) ↦ elim (Option-cases (path_fault seen p)) [
    | inl fine ↦
        let (clean, fresh) = path_fault-IsClean seen p fine in
        rw found (clean, fresh, loop-IsAdmissible (i + 1) (p ∷ seen) rest (rw (found, fine) at h))
    | inr (why, bad) ↦ absurd (cc (rw (found, bad) at h))
  ]
]

loop_silent :
    (i : ℕ) (seen : List String) (as' : List Value)
    → IsAdmissible seen (given_paths as')
    → (attachment_loop i seen as').1 ≡ []
unfolding attachment_loop attachment_step
loop_silent i seen [] h = refl
loop_silent i seen (a ∷ rest) h = elim (Option-cases (get_key a "path" >>= as_str)) [
  | inl missing ↦ rw missing (loop_silent (i + 1) seen rest (rw missing at h))
  | inr (p, found) ↦
      let (clean, fresh, later) = rw found at h in
      rw (found, path_fault-none seen p clean fresh) (loop_silent (i + 1) (p ∷ seen) rest later)
]

abbrev given_in : Option (List Value) → List String
given_in none = []
given_in (some attachments) = given_paths attachments

abbrev pub attachments_of : Members → List String
attachments_of obj = given_in (get obj "attachments" >>= as_array)

-- Nothing is reported for the attachments exactly when every path that is given is relative,
-- without `..`, not empty, and new.
pub attachment_paths-silent_iff :
    (obj : Members) → ((attachment_paths obj).1 ≡ []) ↔ IsAdmissible [] (attachments_of obj)
unfolding attachment_paths
attachment_paths-silent_iff obj = elim (Option-cases (get obj "attachments" >>= as_array)) [
  | inl missing ↦ rw missing (λ h. tt, λ h. refl)
  | inr (attachments, found) ↦
      rw found (loop-IsAdmissible 0 [] attachments, loop_silent 0 [] attachments)
]

-- A set that grew from `seen` holds what was there and paths that were given, and nothing else.
loop_contains :
    (i : ℕ) (seen : List String) (as' : List Value) (p : String)
    → contains (attachment_loop i seen as').0 p ≡ true
    → (contains seen p || contains (given_paths as') p) ≡ true
unfolding attachment_loop attachment_step contains
loop_contains i seen [] p h = ground arith
loop_contains i seen (a ∷ rest) p h = elim (Option-cases (get_key a "path" >>= as_str)) [
  | inl missing ↦ rw missing (loop_contains (i + 1) seen rest p (rw missing at h))
  | inr (q, found) ↦ elim (Option-cases (path_fault seen q)) [
    | inl fine ↦
        let ih = loop_contains (i + 1) (q ∷ seen) rest p (rw (found, fine) at h) in
        rw found (ground (arith, ih))
    | inr (why, bad) ↦
        let ih = loop_contains (i + 1) seen rest p (rw (found, bad) at h) in
        rw found (ground (arith, ih))
  ]
]

-- A reference that is not reported names a path of the object's own attachments.
pub ref_known-given :
    (obj : Members) (at p : String)
    → ref_known (attachment_paths obj).0 at p ≡ []
    → contains (attachments_of obj) p ≡ true
unfolding attachment_paths ref_known contains
ref_known-given obj at p h = elim (Option-cases (get obj "attachments" >>= as_array)) [
  | inl missing ↦ absurd (cc (rw missing at h))
  | inr (attachments, found) ↦
      let inside : contains (attachment_loop 0 [] attachments).0 p ≡ true =
        ground (arith, rw found at h) in
      rw found (loop_contains 0 [] attachments p inside)
]

-- With nothing to report the set is what was there and what was given.
loop_contains_all :
    (i : ℕ) (seen : List String) (as' : List Value) (p : String)
    → IsAdmissible seen (given_paths as')
    → contains (attachment_loop i seen as').0 p ≡ (contains seen p || contains (given_paths as') p)
unfolding attachment_loop attachment_step contains
loop_contains_all i seen [] p h = ground arith
loop_contains_all i seen (a ∷ rest) p h = elim (Option-cases (get_key a "path" >>= as_str)) [
  | inl missing ↦ rw missing (loop_contains_all (i + 1) seen rest p (rw missing at h))
  | inr (q, found) ↦
      let (clean, fresh, later) = rw found at h in
      let ih = loop_contains_all (i + 1) (q ∷ seen) rest p later in
      rw (found, path_fault-none seen q clean fresh) (ground (arith, ih))
]

-- With attachments that are admissible, a reference is not reported exactly when it names one of
-- them.
pub ref_known-eq-nil_iff :
    (obj : Members) (at p : String)
    → IsAdmissible [] (attachments_of obj)
    → (ref_known (attachment_paths obj).0 at p ≡ []) ↔ (contains (attachments_of obj) p ≡ true)
unfolding attachment_paths ref_known contains
ref_known-eq-nil_iff obj at p h = elim (Option-cases (get obj "attachments" >>= as_array)) [
  | inl missing ↦ rw missing (λ e. cc e, λ e. cc e)
  | inr (attachments, found) ↦
      let same = loop_contains_all 0 [] attachments p (rw found at h) in
      rw found (ground (arith, same))
]
