-- ===== src/Config/DropRate.antt =====
-- config.go, `SetMessageDropRate`: the rate at which messages are dropped for a test. The numbers of
-- type float64, their order and `strconv.ParseFloat` are parameters.
use hydfs.Prelude.{Text, ◌≡◌, Option, none, some, Bool, false, if◌then◌else◌, arith}

module _ {F : Type 0} (less : F → F → Bool) (zero_rate one_rate : F) where
  clamped : F → F
  clamped rate =
      let at_least = if less rate zero_rate then zero_rate else rate in
      if less one_rate at_least then one_rate else at_least

  -- The rate after the command; a word that does not parse leaves it as it was.
  unfoldable pub set_message_drop_rate : (Text → Option F) → Text → F → F
  unfolding clamped
  set_message_drop_rate parse percentage rate = elim (parse percentage) [
    | none ↦ rate
    | some parsed ↦ clamped parsed
  ]

  -- neither below zero nor above one
  abbrev pub IsRate : F → Type 0
  IsRate rate = (less rate zero_rate ≡ false) × (less one_rate rate ≡ false)

  clamped-IsRate : (rate : F) → IsRate zero_rate → IsRate one_rate → IsRate (clamped rate)
  unfolding clamped
  clamped-IsRate rate z o = ground arith

  -- Whatever word is typed, a rate that is neither below zero nor above one stays so.
  pub set_message_drop_rate-IsRate :
      (parse : Text → Option F) (percentage : Text) (rate : F)
      → IsRate zero_rate
      → IsRate one_rate
      → IsRate rate
      → IsRate (set_message_drop_rate parse percentage rate)
  unfolding set_message_drop_rate
  set_message_drop_rate-IsRate parse percentage rate z o h = by_parse (parse percentage)
    where
      by_parse : (r : Option F) → IsRate (elim r [ none ↦ rate | some parsed ↦ clamped parsed ])
      by_parse none = h
      by_parse (some parsed) = clamped-IsRate parsed z o
