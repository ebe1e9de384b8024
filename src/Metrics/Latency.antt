-- ===== src/Metrics/Latency.antt =====
-- The headline metric and its parts.
use virtual_helmsman.Prelude.{ℕ, ◌+◌, ◌≡◌, sym, ◌∙◌, ap, Option, none, some, arith}
use mathlib.Core.Option.{some-injective}
use virtual_helmsman.Prelude.Int.{ℤ, ◌+ℤ◌, sub_ℕ}
use virtual_helmsman.Metrics.{
  TurnMetrics, stt_latency_ms, llm_ttft_ms, tts_ttfa_ms, voice_to_voice_ms, elapsed,
}

add-sub_ℕ : (a b c d : ℕ) → sub_ℕ a b +ℤ sub_ℕ c d ≡ sub_ℕ (a + c) (b + d)
add-sub_ℕ a b c d = ground arith

sub_ℕ_cancel : (v s t u : ℕ) → sub_ℕ (s + t + u) (v + s + t) ≡ sub_ℕ u v
sub_ℕ_cancel v s t u = ground arith

elapsed_sum : (v s t u : ℕ) → sub_ℕ u v ≡ sub_ℕ s v +ℤ sub_ℕ t s +ℤ sub_ℕ u t
elapsed_sum v s t u = sym (
    ap (λ x. x +ℤ sub_ℕ u t) (add-sub_ℕ s v t s)
    ∙ add-sub_ℕ (s + t) (v + s) u t
    ∙ sub_ℕ_cancel v s t u)

elapsed-partition :
    (vad stt token audio : Option ℕ) (a b c : ℤ)
    → elapsed stt vad ≡ some a
    → elapsed token stt ≡ some b
    → elapsed audio token ≡ some c
    → elapsed audio vad ≡ some (a +ℤ b +ℤ c)
elapsed-partition (some v) (some s) (some t) (some u) a b c e f g =
    let p : sub_ℕ s v ≡ a = some-injective _ _ e in
    let q : sub_ℕ t s ≡ b = some-injective _ _ f in
    let r : sub_ℕ u t ≡ c = some-injective _ _ g in
    ap some (elapsed_sum v s t u) ∙ (λ i. some (p i +ℤ q i +ℤ r i))
elapsed-partition none none token audio a b c e f g = cc
elapsed-partition none (some s) token audio a b c e f g = cc
elapsed-partition (some v) none token audio a b c e f g = cc
elapsed-partition (some v) (some s) none audio a b c e f g = cc
elapsed-partition (some v) (some s) (some t) none a b c e f g = cc

-- The headline metric is partitioned by its three parts: where they are measured, it is measured
-- too, and it is their sum.
voice_to_voice_ms-partition :
    (t : TurnMetrics) (stt ttft ttfa : ℤ)
    → stt_latency_ms t ≡ some stt
    → llm_ttft_ms t ≡ some ttft
    → tts_ttfa_ms t ≡ some ttfa
    → voice_to_voice_ms t ≡ some (stt +ℤ ttft +ℤ ttfa)
unfolding stt_latency_ms llm_ttft_ms tts_ttfa_ms voice_to_voice_ms
voice_to_voice_ms-partition t stt ttft ttfa a b c =
    elapsed-partition t.vad_speech_end_ts t.stt_final_ts t.llm_first_token_ts t.tts_first_audio_ts
      stt ttft ttfa a b c
