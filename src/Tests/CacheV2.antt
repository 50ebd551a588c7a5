-- ===== src/Tests/CacheV2.antt =====
-- The cache of sonnet-cache-v2 over a store that keeps what was set last.
use sonnet_pro.Prelude.{
  ℕ, ◌≡◌, refl, List, [], ◌∷◌, true, Option, none, some, Text, codes, text_dec, ite,
}
use sonnet_pro.CacheV2.{
  Store, Cache, Call, add_call, get_call, close_call, Reply, done, hit, miss, new_cache, close,
  ensure_initialized, on_store, add, get_check, found, get_locked, get, step,
}
use sonnet_pro.CacheV2.Traces
use sonnet_pro.CacheV2.Traces.{IsValid, new_cache-IsValid, run-closed, get_locked-close}

-- One entry; every value is a view.
abbrev one_entry : Store (Option (Text × ℕ)) ℕ ℕ
one_entry = record {
  new_store = none;
  set = λ k v s. some (k, v);
  set_expiring = λ k v left s. some (k, v);
  fetch = λ k s. (s, elim s [ none ↦ none | some (j, v) ↦ ite (text_dec j k) (some v) none ]);
  remove = λ k s. (none, true);
  clear_store = λ s. none;
  len = λ s. elim s [ none ↦ 0 | some e ↦ 1 ];
  of_view = λ b. b;
  as_view = λ v. some v;
}

abbrev calls : List (Call ℕ)
calls = add_call (codes "a") 5 ∷ get_call (codes "a") ∷ close_call ∷ get_call (codes "a") ∷ []

abbrev replies_of : Option (Cache (Option (Text × ℕ)) × List (Reply ℕ)) → List (Reply ℕ)
replies_of none = []
replies_of (some r) = r.1

calls_test : replies_of (Traces.run one_entry calls new_cache) ≡ done ∷ hit 5 ∷ done ∷ miss ∷ []
unfolding Traces.run step add get get_check get_locked found on_store ensure_initialized close
    new_cache text_dec
calls_test = refl

run-IsValid_example :
    (c' : Cache (Option (Text × ℕ))) × (replies : List (Reply ℕ)) × (Traces.run one_entry calls
        new_cache
      ≡ some (c', replies))
    × IsValid c'
run-IsValid_example = Traces.run-IsValid one_entry calls new_cache new_cache-IsValid
