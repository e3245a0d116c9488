-- ===== src/DeviceTokens/Tests.antt =====
-- A device that passes from one user to another.
use mathlib.Core.Bool.{false≢true}
use relavoi_backend.Base.{◌≡◌, refl, List, [], ◌∷◌, none, false, ◌&&◌, ◌==◌, string_eq, eq_iff}
use relavoi_backend.DeviceTokens.{
  DeviceToken, RegisterTokenArgs, ios, deactivate_token, get_tokens_for_user, new_token, register,
}
use relavoi_backend.DeviceTokens.Owner.{IsUnique, has_token, register-owner}

abbrev first_owner : RegisterTokenArgs
first_owner = record {
  tenant_id = "t1";
  user_phone_hash = "hash-agent";
  token = "device";
  platform = ios;
  app_bundle_id = none;
}

abbrev next_owner : RegisterTokenArgs
next_owner = record first_owner { user_phone_hash = "hash-customer" }

abbrev rows : List DeviceToken
rows = new_token "1" 1000 first_owner ∷ []

rows-IsUnique : IsUnique rows
unfolding IsUnique has_token
rows-IsUnique = (refl, record {})

register-owner_example :
    (has_token "device"
        (get_tokens_for_user "t1" "hash-agent" (register "2" 2000 next_owner rows).1)
      ≡ (next_owner.tenant_id == "t1" && next_owner.user_phone_hash == "hash-agent"))
    × (has_token "device" (get_tokens_for_user "t1" "hash-agent" (deactivate_token "device" rows).1)
        ≡ false)
    × (has_token "phone"
          (get_tokens_for_user "t1" "hash-agent" (register "2" 2000 next_owner rows).1)
        ≡ has_token "phone" (get_tokens_for_user "t1" "hash-agent" rows))
    × (has_token "phone" (get_tokens_for_user "t1" "hash-agent" (deactivate_token "device" rows).1)
        ≡ has_token "phone" (get_tokens_for_user "t1" "hash-agent" rows))
register-owner_example =
    register-owner "2" 2000 next_owner rows "t1" "hash-agent" "phone" rows-IsUnique
      (λ e. false≢true ((eq_iff "device" "").1 e)) (λ e. false≢true ((eq_iff "phone" "device").1 e))
