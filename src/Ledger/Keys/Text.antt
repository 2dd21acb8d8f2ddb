-- ===== src/Ledger/Keys/Text.antt =====
-- The text of a key, `${account}|${integration}|${currency}`, as a list of code points. Different
-- triples have different texts where the account has no `|` in it, as no UUID has and no address:
-- so the triple may stand for the text.
use Prim.Native.Char.{code}
use Prim.Native.String.{String}
use multi_rail_payments_proc.Prelude.{ℕ, ◌≡◌, ◌≢◌, refl, List, [], ◌∷◌, ◌++◌, arith, All}
use multi_rail_payments_proc.Types.{IntegrationType, platform, ethereum, polygon}

-- The code points of a text.
abbrev pub codes : String → List ℕ
codes String.[] = []
codes (String.◌∷◌ c s) = code c ∷ codes s

abbrev integration_text : IntegrationType → List ℕ
integration_text platform = codes "PLATFORM"
integration_text ethereum = codes "ETHEREUM"
integration_text polygon = codes "POLYGON"

unfoldable pub key_text : List ℕ → IntegrationType → List ℕ → List ℕ
key_text account integration currency =
    account ++ (b'|' ∷ (integration_text integration ++ (b'|' ∷ currency)))

abbrev HasNoBar : List ℕ → Type 0
HasNoBar t = All (λ c. c ≢ b'|') t

cut :
    (s t u v : List ℕ)
    → HasNoBar s
    → HasNoBar t
    → s ++ (b'|' ∷ u) ≡ t ++ (b'|' ∷ v)
    → (s ≡ t) × (u ≡ v)
cut [] [] u v hs ht e = (refl, cc)
cut [] (b ∷ t) u v hs ht e = absurd (ground arith)
cut (a ∷ s) [] u v hs ht e = absurd (ground arith)
cut (a ∷ s) (b ∷ t) u v hs ht e = ground (arith, cut s t u v hs.1 ht.1)

integration_text-HasNoBar : (i : IntegrationType) → HasNoBar (integration_text i)
integration_text-HasNoBar platform = omega arith
integration_text-HasNoBar ethereum = omega arith
integration_text-HasNoBar polygon = omega arith

integration_text_injective :
    (i j : IntegrationType) → integration_text i ≡ integration_text j → i ≡ j
integration_text_injective i j e = ground arith

-- Keys of accounts without a `|` have the same text only if they have the same account,
-- integration and currency.
pub key_text_injective :
    (account account' : List ℕ) (integration integration' : IntegrationType)
    (currency currency' : List ℕ)
    → HasNoBar account
    → HasNoBar account'
    → key_text account integration currency ≡ key_text account' integration' currency'
    → (account ≡ account') × (integration ≡ integration') × (currency ≡ currency')
unfolding key_text
key_text_injective a a' i i' c c' h h' e =
    let (same, rest) = cut a a' _ _ h h' e in
    let (same_text, same_currency) =
      cut (integration_text i) (integration_text i') c c' (integration_text-HasNoBar i)
        (integration_text-HasNoBar i') rest in
    (same, integration_text_injective i i' same_text, same_currency)
