-- ===== src/Alarm/Keys.antt =====
-- src/alarm/index.ts: the dictionary of intents as a finite map.
use looping_core.Base.{
  String, true, false, Option, none, some, [], ◌∷◌, any, str_eq, str_eq_iff, if◌then◌else◌, ◌≡◌,
  refl, sym, ap, ◌∙◌, arith, Bool-cases, inl, inr,
}
use looping_core.Alarm.Model.{WakeIntent, Intents, look_up_intent, store_intent, remove_intent}

-- The same map with one key changed.
abbrev pub update :
    String → Option WakeIntent → (String → Option WakeIntent) → String → Option WakeIntent
update key v f k = if str_eq key k then v else f k

pub look_up-store :
    (key k : String) (i : WakeIntent) (m : Intents)
    → look_up_intent k (store_intent key i m) ≡ update key (some i) (λ j. look_up_intent j m) k
unfolding look_up_intent store_intent
look_up-store key k i [] = refl
look_up-store key k i ((j, old) ∷ m) = elim (Bool-cases (str_eq j key)) [
  | inl here ↦
      let same : j ≡ key = (str_eq_iff j key).0 here in
      elim (Bool-cases (str_eq key k)) [
        | inl asked ↦
            let asked_here : str_eq j k ≡ true = ap (λ x. str_eq x k) same ∙ asked in
            rw (here, asked, look_up_intent, asked_here) refl
        | inr other ↦
            let other_here : str_eq j k ≡ false = ap (λ x. str_eq x k) same ∙ other in
            rw (here, other, look_up_intent, other_here) refl
      ]
  | inr there ↦ elim (Bool-cases (str_eq j k)) [
    | inl found ↦
        let same : j ≡ k = (str_eq_iff j k).0 found in
        elim (Bool-cases (str_eq key k)) [
          | inl asked ↦
              let k_is : key ≡ k = (str_eq_iff key k).0 asked in
              let clash : str_eq j key ≡ true = (str_eq_iff j key).1 (same ∙ sym k_is) in
              absurd (cc)
          | inr other ↦ rw (there, look_up_intent, found, other) refl
        ]
    | inr lost ↦ rw (there, look_up_intent, lost) (look_up-store key k i m)
  ]
]

pub look_up-remove :
    (key k : String) (m : Intents)
    → look_up_intent k (remove_intent key m) ≡ update key none (λ j. look_up_intent j m) k
unfolding look_up_intent remove_intent
look_up-remove key k [] = ground arith
look_up-remove key k ((j, old) ∷ m) =
    let rest = look_up-remove key k m in
    elim (Bool-cases (str_eq j key)) [
      | inl here ↦
          let same : j ≡ key = (str_eq_iff j key).0 here in
          elim (Bool-cases (str_eq key k)) [
            | inl asked ↦ rw (here, asked) (rest ∙ rw asked refl)
            | inr other ↦
                let other_here : str_eq j k ≡ false = ap (λ x. str_eq x k) same ∙ other in
                rw (here, other, other_here) (rest ∙ rw other refl)
          ]
      | inr there ↦ elim (Bool-cases (str_eq j k)) [
        | inl found ↦
            let same : j ≡ k = (str_eq_iff j k).0 found in
            elim (Bool-cases (str_eq key k)) [
              | inl asked ↦
                  let k_is : key ≡ k = (str_eq_iff key k).0 asked in
                  let clash : str_eq j key ≡ true = (str_eq_iff j key).1 (same ∙ sym k_is) in
                  absurd (cc)
              | inr other ↦ rw (there, look_up_intent, found, other) refl
            ]
        | inr lost ↦ rw (there, look_up_intent, lost) rest
      ]
    ]

pub absent-remove :
    (key : String) (m : Intents) → any (λ e. str_eq e.0 key) m ≡ false → remove_intent key m ≡ m
unfolding remove_intent
absent-remove key [] h = refl
absent-remove key ((j, old) ∷ m) h = elim (Bool-cases (str_eq j key)) [
  | inl here ↦
      let held : any (λ e. str_eq e.0 key) ((j, old) ∷ m) ≡ true = rw here refl in absurd (cc)
  | inr there ↦
      let rest : any (λ e. str_eq e.0 key) m ≡ false = rw there at h in
      rw there (ap (λ es. (j, old) ∷ es) (absent-remove key m rest))
]
