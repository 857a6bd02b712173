-- ===== src/Ordered/Links.antt =====
-- Invitation links, and the text that shows the state of a channel. `generar_semilla_maestra` is
-- `Seed.generate`.
use cripto_endevs_comunity.Base.{
  ℕ, ◌+◌, ◌/◌, ◌%◌, ◌≡◌, ap, ◌∙◌, Option, some, none, List, [], ◌∷◌, ◌++◌, length, ltb,
  if◌then◌else◌, codes,
}
use cripto_endevs_comunity.Error.{Result, ok, err, panic, enlace_invalido}
use cripto_endevs_comunity.Bytes.{IsBytes}
use cripto_endevs_comunity.Crypto.{Crypto, IsLawful, hkdf}
use cripto_endevs_comunity.Seed.{
  MasterSeed, from_bytes, from_transfer_token, export_for_transfer,
  from_transfer_token-export_for_transfer,
}
use cripto_endevs_comunity.Texts.{strip_prefix, strip_prefix-append, decimal}
use cripto_endevs_comunity.Ordered.{CryptoNugget}

abbrev pub link_prefix : List ℕ
link_prefix = codes "nugget://sincronizar?v=1&semilla="

generar_enlace_invitacion : Crypto → MasterSeed → List ℕ
generar_enlace_invitacion c seed = link_prefix ++ export_for_transfer c seed

-- `.map_err(|_| Error::EnlaceInvalido)`
abbrev pub or_enlace_invalido : Result MasterSeed → Result MasterSeed
or_enlace_invalido (ok seed) = ok seed
or_enlace_invalido (err e) = err enlace_invalido
or_enlace_invalido panic = panic

-- What follows the prefix, if the link has it.
unfoldable pub after_prefix : Crypto → Option (List ℕ) → Result MasterSeed
after_prefix c (some semilla) = or_enlace_invalido (from_transfer_token c semilla)
after_prefix c none = err enlace_invalido

unfoldable pub extraer_semilla_de_enlace : Crypto → (enlace : List ℕ) → Result MasterSeed
unfolding strip_prefix after_prefix
extraer_semilla_de_enlace c enlace = after_prefix c (strip_prefix link_prefix enlace)

-- A seed that `from_bytes` accepts comes back from the invitation link made for it.
extraer_semilla_de_enlace-generar_enlace_invitacion :
    (c : Crypto) (bytes : List ℕ) (seed : MasterSeed)
    → IsLawful c
    → IsBytes bytes
    → length bytes ≡ 32
    → from_bytes bytes ≡ ok seed
    → extraer_semilla_de_enlace c (generar_enlace_invitacion c seed) ≡ ok seed
unfolding extraer_semilla_de_enlace generar_enlace_invitacion after_prefix
extraer_semilla_de_enlace-generar_enlace_invitacion c bytes seed lawful b size made =
    ap (after_prefix c) (strip_prefix-append link_prefix (export_for_transfer c seed))
    ∙ ap or_enlace_invalido
        (from_transfer_token-export_for_transfer c bytes seed lawful b size made)

fingerprint : Crypto → (key info : List ℕ) → List ℕ
fingerprint c key info = hkdf c (codes "CryptoNugget:fingerprint:v1") key info 4

-- `{:02X}`
hex_digit : ℕ → ℕ
hex_digit d = if ltb d 10 then 48 + d else 55 + d

hex : List ℕ → List ℕ
unfolding hex_digit
hex [] = []
hex (b ∷ bs) = hex_digit (b / 16) ∷ hex_digit (b % 16) ∷ hex bs

abbrev head_of : List ℕ → List ℕ
head_of [] = []
head_of (b ∷ bs) = b ∷ []

obtener_estado_adn : Crypto → CryptoNugget → List ℕ
unfolding fingerprint hex decimal
obtener_estado_adn c n =
    codes "TX:"
    ++ (hex (fingerprint c n.tx_key (codes "fp:tx"))
        ++ (codes " RX:"
            ++ (hex (fingerprint c n.rx_key (codes "fp:rx"))
                ++ (codes " SEQ:"
                    ++ (decimal 20 n.tx_seq
                        ++ (codes "/"
                            ++ (decimal 20 n.rx_seq
                                ++ (codes " SHA:"
                                    ++ (hex (head_of n.tx_transcript_hash)
                                        ++ hex (head_of n.rx_transcript_hash))))))))))
