-- ===== src/Server/Auth/Laws.antt =====
-- About crates/evalhub-server/src/auth.rs: scopes, roles and namespaces.
use mathlib.Core.Path.{subst}
use evalhub.Base.{
  String, ◌≡◌, ◌↔◌, ◌⊎◌, refl, sym, ◌∙◌, inl, inr, true, false, Option, none, some, List, [], ◌∷◌,
  str_eq, eq_iff, arith, Bool-cases, is_some,
}
use evalhub.Base.Lists.{contains}
use evalhub.Server.Auth.{
  Scope, read, write, admin, scope_str, parse_scope, scope_le, min, Identity, Caller, role_of,
  lesser, effective_scope, reachable, namespaces_of, namespaces, at_least, allowed_to, allows,
}

-- The owner of a namespace is the user whose login it is; elsewhere a role is what counts.
abbrev pub HasRole : Identity → String → Scope → Type 0
HasRole id ns scope =
    (role : Scope) × ((role_of id.org_roles ns ≡ some role) × (scope_le scope role ≡ true))

-- A token may do what needs a scope where it covers the namespace, has the scope itself, and the
-- namespace is its user's own or one where the user's role has the scope too.
abbrev pub Grants : Identity → String → Scope → Type 0
Grants id ns scope =
    (contains id.namespaces ns ≡ true)
    × ((scope_le scope id.scope ≡ true)
        × ((ns ≡ id.login) ⊎ ((¬ (ns ≡ id.login)) × HasRole id ns scope)))

min_iff :
    (a b s : Scope)
    → (scope_le s (min a b) ≡ true) ↔ ((scope_le s b ≡ true) × (scope_le s a ≡ true))
unfolding scope_le min
min_iff a b s = ground arith

lesser_iff :
    (id : Identity) (ns : String) (scope : Scope) (o : Option Scope)
    → role_of id.org_roles ns ≡ o
    → (at_least scope (lesser id.scope o) ≡ true)
      ↔ ((scope_le scope id.scope ≡ true) × HasRole id ns scope)
lesser_iff id ns scope none is =
    (λ h. absurd (ground arith), λ (h, (role, (r, le))). absurd (ground arith))
lesser_iff id ns scope (some role) is =
    let (to, from) = min_iff role id.scope scope in
    (
      λ h. ((to h).0, (role, (is, (to h).1))),
      λ (h, (other, (r, le))).
          let same : other ≡ role = ground arith in
          from (h, subst (λ x. scope_le scope x ≡ true) same le),
    )

effective_scope_iff :
    (id : Identity) (ns : String) (scope : Scope)
    → (at_least scope (effective_scope id ns) ≡ true) ↔ Grants id ns scope
unfolding effective_scope
effective_scope_iff id ns scope = elim (Bool-cases (contains id.namespaces ns)) [
  | inl c ↦ elim (Bool-cases (str_eq ns id.login)) [
    | inl e ↦
        let own : ns ≡ id.login = ground (arith, eq_iff ns id.login) in
        rw (c, e) (λ h. (refl, (h, inl own)), λ (x, (h, y)). h)
    | inr e ↦
        let other : ¬ (ns ≡ id.login) = λ own. absurd (ground (arith, eq_iff ns id.login)) in
        let (to, from) = lesser_iff id ns scope (role_of id.org_roles ns) refl in
        rw (c, e)
          (
            λ h. (refl, ((to h).0, inr (other, (to h).1))),
            λ (x, (h, y)). elim y [ inl own ↦ absurd (other own) | inr (o, role) ↦ from (h, role) ],
          )
  ]
  | inr c ↦ rw c (λ h. absurd (ground arith), λ (x, rest). absurd (ground arith))
]

-- A caller is allowed something in a namespace exactly when it has a token that covers the
-- namespace and has the scope, and the namespace is its user's own or one where the user's role
-- has the scope too.
pub allows_iff :
    (caller : Caller) (ns : String) (scope : Scope)
    → (allows caller ns scope ≡ true)
      ↔ ((id : Identity) × ((caller.identity ≡ some id) × Grants id ns scope))
unfolding allows
allows_iff caller ns scope = by_identity caller.identity
  where
    by_identity :
        (o : Option Identity)
        → (allowed_to o ns scope ≡ true) ↔ ((id : Identity) × ((o ≡ some id) × Grants id ns scope))
    by_identity none = (λ h. absurd (ground arith), λ (id, (h, g)). absurd (ground arith))
    by_identity (some id) = (
      λ h. (id, (refl, (effective_scope_iff id ns scope).0 h)),
      λ (other, (h, g)).
          let same : other ≡ id = ground arith in
          (effective_scope_iff id ns scope).1 (subst (λ x. Grants x ns scope) same g),
    )

read_least : (o : Option Scope) → at_least read o ≡ is_some o
unfolding scope_le
read_least none = refl
read_least (some read) = refl
read_least (some write) = refl
read_least (some admin) = refl

reachable_iff :
    (id : Identity) (ns : String) (all : List String)
    → (contains (reachable id all) ns ≡ true)
      ↔ ((contains all ns ≡ true) × (is_some (effective_scope id ns) ≡ true))
unfolding reachable contains
reachable_iff id ns [] = ground arith
reachable_iff id ns (n ∷ rest) =
    let (to, from) = reachable_iff id ns rest in
    elim (Bool-cases (str_eq n ns)) [
      | inl e ↦
          let same : n ≡ ns = ground (arith, eq_iff n ns) in
          elim (Bool-cases (is_some (effective_scope id n))) [
            | inl some_scope ↦
                let here : is_some (effective_scope id ns) ≡ true = rw (sym same) some_scope in
                rw (some_scope, e) (λ h. (refl, here), λ h. refl)
            | inr no_scope ↦
                let gone : is_some (effective_scope id ns) ≡ false = rw (sym same) no_scope in
                rw (no_scope, e) (λ h. (refl, (to h).1), λ (x, h). absurd (ground arith))
          ]
      | inr e ↦ elim (Bool-cases (is_some (effective_scope id n))) [
        | inl some_scope ↦ rw (some_scope, e) (to, from)
        | inr no_scope ↦ rw (no_scope, e) (to, from)
      ]
    ]

-- The namespaces that a caller reads are the ones in which it is allowed to read.
pub namespaces_iff :
    (caller : Caller) (ns : String)
    → (contains (namespaces caller) ns ≡ true) ↔ (allows caller ns read ≡ true)
unfolding namespaces allows contains
namespaces_iff caller ns = by_identity caller.identity
  where
    by_identity :
        (o : Option Identity)
        → (contains (namespaces_of o) ns ≡ true) ↔ (allowed_to o ns read ≡ true)
    by_identity none = ground arith
    by_identity (some id) =
        let (to, from) = reachable_iff id ns id.namespaces in
        let least = read_least (effective_scope id ns) in
        (λ h. least ∙ (to h).1, λ h. from (((effective_scope_iff id ns read).0 h).0, sym least ∙ h))

-- A scope reads back from the name that it is stored under.
pub parse_scope-scope_str : (scope : Scope) → parse_scope (scope_str scope) ≡ scope
unfolding parse_scope scope_str
parse_scope-scope_str read = refl
parse_scope-scope_str write = refl
parse_scope-scope_str admin = refl
