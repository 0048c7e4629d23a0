-- ===== src/Wallet/Tests.antt =====
-- A store of nonces at work.
use stamppad.Prelude.{◌≡◌, refl, true, false, [], ◌∷◌, arith}
use stamppad.Prelude.Dict.{put}
use stamppad.Text.{Text, codes, text_eq}
use stamppad.Wallet.Nonce.{
  Outstanding, nonce_ttl_ms, issue, consume, run, sweep, issue_of, consume_of, size,
  consume-consume, consume-issue,
}

abbrev first_nonce : Text
first_nonce = codes "a1"

abbrev other_nonce : Text
other_nonce = codes "b2"

abbrev one_nonce : Outstanding
one_nonce = (first_nonce, 900) ∷ []

consume-consume_example :
    (consume first_nonce 600
      (run nonce_ttl_ms (issue_of other_nonce 520 ∷ []) (consume first_nonce 500 one_nonce).1)).0
    ≡ false
unfolding text_eq
consume-consume_example =
    consume-consume nonce_ttl_ms first_nonce 500 600 one_nonce (issue_of other_nonce 520 ∷ [])
      (refl, tt)

consume-issue_example :
    (consume first_nonce 600 (
      run nonce_ttl_ms
        (consume_of other_nonce 520 ∷ [])
        (issue nonce_ttl_ms first_nonce 500 []).1)).0
    ≡ true
unfolding text_eq
consume-issue_example =
    consume-issue nonce_ttl_ms first_nonce 500 600 [] (consume_of other_nonce 520 ∷ [])
      ((refl, omega arith), tt)

size_swept : size (issue nonce_ttl_ms other_nonce 900 one_nonce).1 ≡ 1
unfolding issue put sweep
size_swept = refl
