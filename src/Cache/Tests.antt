-- ===== src/Cache/Tests.antt =====
-- The cache at concrete inputs.
use relavoi_backend.Base.{ℕ, ◌+◌, ◌≡◌, String, [], ◌∷◌, none, string_eq}
use relavoi_backend.Cache.{Store, get, set}
use relavoi_backend.Cache.Expiry.{get-set}

abbrev key : String
key = "a"

abbrev two_entries : Store ℕ
two_entries =
    ("a", record { value = 1; expires_at = 10 }) ∷ ("b", record { value = 2; expires_at = 20 }) ∷ []

get-set_example : (get (100 + 60) key (set 100 key 7 50 two_entries)).0 ≡ none
get-set_example = get-set 100 60 50 key key 7 two_entries
