-- ===== src/Web/ConfigJson/Tests.antt =====
-- `%u` of `snprintk`, and a configuration with passphrases.
use esp_nmea_bridge.Prelude.{
  ℕ, zero, suc, ◌+◌, ◌/◌, ◌%◌, ◌^◌, ◌≤◌, ◌<◌, ◌≡◌, ◌∙◌, sym, refl, [], ◌∷◌, ◌++◌, ltb, lt→ltb,
  length, length-append, concat, if◌then◌else◌, if-either, arith,
}
use esp_nmea_bridge.Prelude.CString.{Bytes, cstr, strlen}
use esp_nmea_bridge.Config.Tests.{config}
use esp_nmea_bridge.Web.ConfigJson.{
  write_config_json, config_pieces, psk_set, write_config_json-whole, write_config_json-hides_psk,
}

-- The decimal digits of a number below 10 to the power of the fuel.
digits : ℕ → ℕ → Bytes
digits zero n = []
digits (suc f) n =
    let rest = digits f (n / 10) in if ltb n 10 then (48 + n) ∷ [] else rest ++ (48 + n % 10) ∷ []

digits-short : (f n k : ℕ) → 0 < k → n < 10 ^ k → length (digits f n) ≤ k
unfolding digits
digits-short zero n k h l = omega arith
digits-short (suc f) n zero h l = absurd (omega (arith, h))
digits-short (suc f) n (suc zero) h l =
    if-either (λ (d : Bytes). length d ≤ 1) (ltb n 10) (λ _. omega arith)
      (λ e. let t = sym (lt→ltb n 10 (omega (arith, l))) ∙ e in cc)
digits-short (suc f) n (suc (suc k)) h l =
    if-either (λ (d : Bytes). length d ≤ suc (suc k)) (ltb n 10) (λ _. omega arith)
      (λ e. omega (
        arith,
        length-append (digits f (n / 10)) ((48 + n % 10) ∷ []),
        digits-short f (n / 10) (suc k) (omega arith) (omega (arith, l)),
      ))

write_config_json-whole_example :
    write_config_json (digits 10) config ≡ concat (config_pieces (digits 10) config)
unfolding strlen cstr
write_config_json-whole_example =
    write_config_json-whole (digits 10) (digits-short 10) config (omega arith) (omega arith)
      (omega arith) (omega arith)

write_config_json-hides_psk_example :
    write_config_json (digits 10) (record config {
      sta = record (config.sta) { psk = 0 ∷ 1 ∷ [] };
      ap = record (config.ap) { psk = 0 ∷ 2 ∷ [] };
    })
    ≡ write_config_json (digits 10) config
unfolding psk_set
write_config_json-hides_psk_example =
    write_config_json-hides_psk (digits 10) config (0 ∷ 1 ∷ []) (0 ∷ 2 ∷ []) refl refl
