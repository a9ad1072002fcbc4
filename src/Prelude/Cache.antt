-- ===== src/Prelude/Cache.antt =====
-- github.com/patrickmn/go-cache: a parameter. `get` answers from the entries that have not expired;
-- an entry that is set stays until it is deleted, replaced or expired, and expiry is a change of the
-- cache from outside.
use karpenter_provider_yande.Prelude.Tests.{if◌then◌else◌}
use Prim.Native.String.{String}
use mathlib.Core.Path.{◌≡◌}
use mathlib.Core.Option.{Option, none, some}
use mathlib.Core.List.{List, Memᴰ}
use text.Mathlib.Text.{◌==◌}

pub record CacheOf (V : Type 0) : Type 1 where
  pub Cache : Type 0
  pub get : String → Cache → Option V
  pub set : String → V → Cache → Cache
  pub delete : String → Cache → Cache
  -- the keys of Items()
  pub keys : Cache → List String
  pub get-set :
      (k j : String) (v : V) (c : Cache) → get j (set k v c) ≡ (if k == j then some v else get j c)
  pub get-delete :
      (k j : String) (c : Cache) → get j (delete k c) ≡ (if k == j then none else get j c)
  pub keys-get : (k : String) (v : V) (c : Cache) → get k c ≡ some v → Memᴰ k (keys c)
