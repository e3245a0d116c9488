-- ===== src/DeviceTokens/Owner.antt =====
-- Who is pushed to by a token.
use relavoi_backend.Base.{
  Option, if_not, none, ℕ, ◌≡◌, ◌≢◌, refl, ap, ◌∙◌, String, Bool, false, not, ◌&&◌, ◌||◌, List, [],
  ◌∷◌, ◌==◌, string_eq, keep_if, arith, eq_iff, eq_refl, sym, subst, Bool-cases, inl, inr,
}
use relavoi_backend.DeviceTokens.{
  DeviceToken, RegisterTokenArgs, upsert, register, owned_by, insert_by_refresh, latest_first,
  get_tokens_for_user, deactivate_where, deactivate_token,
}

unfoldable pub has_token : String → List DeviceToken → Bool
has_token t [] = false
has_token t (r ∷ rs) = r.token == t || has_token t rs

-- The unique index of the table.
unfoldable pub IsUnique : List DeviceToken → Type 0
IsUnique [] = Unit
IsUnique (r ∷ rs) = (has_token r.token rs ≡ false) × IsUnique rs

has_token-insert :
    (t : String) (r : DeviceToken) (rs : List DeviceToken)
    → has_token t (insert_by_refresh r rs) ≡ (r.token == t || has_token t rs)
unfolding has_token insert_by_refresh
has_token-insert t r [] = refl
has_token-insert t r (s ∷ ss) = ground (arith, has_token-insert t r ss)

has_token-latest :
    (t : String) (rs : List DeviceToken) → has_token t (latest_first rs) ≡ has_token t rs
unfolding has_token latest_first
has_token-latest t [] = refl
has_token-latest t (r ∷ rs) =
    has_token-insert t r (latest_first rs) ∙ ap (λ b. r.token == t || b) (has_token-latest t rs)

-- A token that no row has is nobody's.
has_token-keep :
    (t : String) (p : DeviceToken → Bool) (rs : List DeviceToken)
    → has_token t rs ≡ false
    → has_token t (keep_if p rs) ≡ false
unfolding has_token
has_token-keep t p [] h = refl
has_token-keep t p (r ∷ rs) h = ground (arith, h, has_token-keep t p rs)

upsert-owner :
    (id : String) (now : ℕ) (a : RegisterTokenArgs) (rs : List DeviceToken) (tenant user : String)
    → IsUnique rs
    → has_token a.token (keep_if (owned_by tenant user) (upsert id now a rs).1)
      ≡ (a.tenant_id == tenant && a.user_phone_hash == user)
unfolding has_token upsert IsUnique
upsert-owner id now a [] tenant user u = ground (arith, eq_refl a.token)
upsert-owner id now a (r ∷ rs) tenant user u =
    let absent : r.token ≡ a.token → has_token a.token rs ≡ false =
      λ e. subst (λ t. has_token t rs ≡ false) e u.0 in
    elim (Bool-cases (r.token == a.token)) [
      | inl same ↦
          let same_token = (eq_iff r.token a.token).0 same in
          ground (arith, same, has_token-keep a.token (owned_by tenant user) rs (absent same_token))
      | inr differs ↦ ground (arith, differs, upsert-owner id now a rs tenant user u.1)
    ]

upsert-others :
    (id : String) (now : ℕ) (a : RegisterTokenArgs) (rs : List DeviceToken) (tenant user t : String)
    → t ≢ a.token
    → has_token t (keep_if (owned_by tenant user) (upsert id now a rs).1)
      ≡ has_token t (keep_if (owned_by tenant user) rs)
unfolding has_token upsert
upsert-others id now a [] tenant user t other =
    ground (arith, other, eq_iff a.token t, eq_iff t a.token)
upsert-others id now a (r ∷ rs) tenant user t other = elim (Bool-cases (r.token == a.token)) [
  | inl same ↦
      ground (arith, same, other, eq_iff r.token t, eq_iff a.token t, eq_iff r.token a.token)
  | inr differs ↦ ground (arith, differs, other, upsert-others id now a rs tenant user t other)
]

deactivated :
    (rs : List DeviceToken) (tenant user t k : String)
    → has_token k (keep_if (owned_by tenant user) (deactivate_where (λ r. r.token == t) rs).1)
      ≡ (not (t == k) && has_token k (keep_if (owned_by tenant user) rs))
unfolding has_token deactivate_where
deactivated [] tenant user t k = ground arith
deactivated (r ∷ rs) tenant user t k =
    ground (arith, deactivated rs tenant user t k, eq_iff r.token t, eq_iff r.token k, eq_iff t k)

-- A token that is registered is that user's and no one else's, whoever had it before: of the users of
-- all tenants, it is among the tokens of exactly the one who registered it. Once it is deactivated it
-- is no one's. Neither changes who has another token. No two rows have a token in common, and the
-- registered one is not empty.
pub register-owner :
    (id : String) (now : ℕ) (a : RegisterTokenArgs) (rows : List DeviceToken)
    (tenant user other : String)
    → IsUnique rows
    → a.token ≢ ""
    → other ≢ a.token
    → (has_token a.token (get_tokens_for_user tenant user (register id now a rows).1)
        ≡ (a.tenant_id == tenant && a.user_phone_hash == user))
      × (has_token a.token (get_tokens_for_user tenant user (deactivate_token a.token rows).1)
          ≡ false)
      × (has_token other (get_tokens_for_user tenant user (register id now a rows).1)
          ≡ has_token other (get_tokens_for_user tenant user rows))
      × (has_token other (get_tokens_for_user tenant user (deactivate_token a.token rows).1)
          ≡ has_token other (get_tokens_for_user tenant user rows))
unfolding register get_tokens_for_user deactivate_token
register-owner id now a rows tenant user other unique some_token differs = (
  registered a.token ∙ upsert-owner id now a rows tenant user unique,
  left a.token ∙ ground (arith, eq_refl a.token),
  registered other ∙ upsert-others id now a rows tenant user other differs ∙ sym (before other),
  left other ∙ ground (arith, differs, eq_iff a.token other) ∙ sym (before other),
)
  where
    before :
        (t : String)
        → has_token t (latest_first (keep_if (owned_by tenant user) rows))
          ≡ has_token t (keep_if (owned_by tenant user) rows)
    before t = has_token-latest t (keep_if (owned_by tenant user) rows)

    registered :
        (t : String)
        → has_token t (get_tokens_for_user tenant user (register id now a rows).1)
          ≡ has_token t (keep_if (owned_by tenant user) (upsert id now a rows).1)
    registered t =
        if_not
          (λ (x : Option DeviceToken × List DeviceToken).
            has_token t (latest_first (keep_if (owned_by tenant user) x.1))
            ≡ has_token t (keep_if (owned_by tenant user) (upsert id now a rows).1))
          (a.token == "") (none, rows) (ground (arith, some_token, eq_iff a.token ""))
          (has_token-latest t (keep_if (owned_by tenant user) (upsert id now a rows).1))

    left :
        (t : String)
        → has_token t (get_tokens_for_user tenant user (deactivate_token a.token rows).1)
          ≡ (not (a.token == t) && has_token t (keep_if (owned_by tenant user) rows))
    left t =
        has_token-latest t
          (keep_if (owned_by tenant user) (deactivate_where (λ r. r.token == a.token) rows).1)
        ∙ deactivated rows tenant user a.token t
