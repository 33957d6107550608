-- ===== src/Product/Scopes.antt =====
-- What product/mod.rs accepts: the ids, and the scopes that `normalize_scopes` returns.
use opendaemon.Prelude.{
  ◌≡◌, refl, subst, true, List, [], ◌∷◌, ok, btree_set, btree_set-IsAscending,
  btree_set_of_IsAscending, any-btree_set, IsAscending,
}
use opendaemon.Product.{ApiScope, scope_rank, has_scope, normalize_scopes, scopes_or_error}

scopes_or_error-eq-ok : (xs ys : List ApiScope) → scopes_or_error xs ≡ ok ys → xs ≡ ys
scopes_or_error-eq-ok [] ys h = absurd (cc)
scopes_or_error-eq-ok (x ∷ xs) ys h = cc

scopes_or_error_of_member :
    (s : ApiScope) (xs : List ApiScope) → has_scope xs s ≡ true → scopes_or_error xs ≡ ok xs
scopes_or_error_of_member s [] h = absurd (cc)
scopes_or_error_of_member s (x ∷ xs) h = refl

-- The scopes that `normalize_scopes` returns have the members of the list it was given, each once
-- and in the order of the scopes; giving it what it returned returns that again.
pub normalize_scopes_lem :
    (scopes normal : List ApiScope)
    → normalize_scopes scopes ≡ ok normal
    → ((s : ApiScope) → has_scope normal s ≡ has_scope scopes s)
      × IsAscending scope_rank normal
      × (normalize_scopes normal ≡ ok normal)
unfolding normalize_scopes
normalize_scopes_lem scopes normal h =
    let e = scopes_or_error-eq-ok (btree_set scope_rank scopes) normal h in
    let up = subst (IsAscending scope_rank) e (btree_set-IsAscending scope_rank scopes) in
    (
      λ s.
          subst (λ n. has_scope n s ≡ has_scope scopes s) e
            (any-btree_set scope_rank (scope_rank s) scopes),
      up,
      rw (btree_set_of_IsAscending scope_rank normal up)
          (subst (λ n. scopes_or_error n ≡ ok normal) e h),
    )
