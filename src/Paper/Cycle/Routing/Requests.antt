-- ===== src/Paper/Cycle/Routing/Requests.antt =====
-- The symbols that a cycle takes from its history.
use bot_crypto.Prelude.{
  ℕ, String, ◌≡◌, List, [], ◌∷◌, arith, length, map, ap, refl, ◌∙◌, Bool, true, count,
}
use bot_crypto.Float.{Float}
use bot_crypto.Dict.{Dict, keys}
use bot_crypto.Market.Candles.{Ohlcv}
use bot_crypto.Paper.Cycle.Stages.{Engine}
use bot_crypto.Paper.Cycle.Routing.{request, requests}

count-true : (ks : List String) → count (λ k. true) ks ≡ length ks
count-true [] = refl
count-true (k ∷ ks) = ground (arith, count-true ks)

length-keys : {A : Type 0} (d : Dict A) → length (keys d) ≡ length d
length-keys [] = refl
length-keys (e ∷ d) = ground (arith, length-keys d)

module _ {F : Type 0} ⦃fl : Float F⦄ where
  map-symbol :
      (history : Dict (List (Ohlcv F))) (timestamps : Dict ℕ) (ks : List String)
      → map (λ r. r.symbol) (map (request history timestamps) ks) ≡ ks
  unfolding request
  map-symbol history timestamps [] = refl
  map-symbol history timestamps (k ∷ ks) = ap (◌∷◌ k) (map-symbol history timestamps ks)

  length-map-request :
      (history : Dict (List (Ohlcv F))) (timestamps : Dict ℕ) (ks : List String)
      → length (map (request history timestamps) ks) ≡ length ks
  length-map-request history timestamps [] = refl
  length-map-request history timestamps (k ∷ ks) =
      ground (arith, length-map-request history timestamps ks)

  -- Each symbol is requested as often as it is a key of the history.
  pub count-requests :
      (e : Engine F) (history : Dict (List (Ohlcv F))) (timestamps : Dict ℕ)
      → ((test : String → Bool) (ks : List String) → count test (e.sorted ks) ≡ count test ks)
      → (test : String → Bool)
      → count test (map (λ r. r.symbol) (requests e history timestamps)) ≡ count test (keys history)
  unfolding requests
  count-requests e history timestamps sorts test =
      ap (count test) (map-symbol history timestamps (e.sorted (keys history)))
      ∙ sorts test (keys history)

  pub length-requests :
      (e : Engine F) (history : Dict (List (Ohlcv F))) (timestamps : Dict ℕ)
      → ((test : String → Bool) (ks : List String) → count test (e.sorted ks) ≡ count test ks)
      → length (requests e history timestamps) ≡ length history
  unfolding requests
  length-requests e history timestamps sorts =
      let ks = e.sorted (keys history) in
      omega (
        arith,
        length-map-request history timestamps ks,
        count-true ks,
        sorts (λ k. true) (keys history),
        count-true (keys history),
        length-keys history,
      )
