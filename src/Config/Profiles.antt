-- ===== src/Config/Profiles.antt =====
-- What a valid configuration promises about its profiles.
use reticulum_tnc.Base.{
  ◌≤◌, List, [], ◌∷◌, ◌++◌, if◌then◌else◌, Bool-cases, Option-cases, ◌≡◌, refl, sym, subst, ◌≢◌,
  inl, inr, Bool, true, false, ◌&&◌, none, some, arith,
}
use reticulum_tnc.Floats.{Float}
use reticulum_tnc.Profile.{PhyProfile, profile_is_valid, profile_psk}
use reticulum_tnc.Rate.{ModemRate, modem_profile_rate, max_audio_samples}
use reticulum_tnc.Rate.Bounds.{modem_profile_rate-fits}
use reticulum_tnc.Config.{
  Text, same_text, PhyProfileConfig, PlatformConfig, fec_mode_of, modulation_named,
  profile_config_named, shaped, profile_of, phy_profile_named, has_rates, unused_after,
  entries_valid, entry_refused, platform_config_is_valid, sizes_valid, times_valid, gain_valid,
}

same_text_refl : (a : Text) → same_text a a ≡ true
unfolding same_text
same_text_refl [] = refl
same_text_refl (x ∷ xs) = let rest = same_text_refl xs in ground arith

pub and-true : {a b : Bool} → (a && b) ≡ true → (a ≡ true) × (b ≡ true)
and-true {a = true} h = (refl, h)
and-true {a = false} h = absurd (ground arith)

module _ {F : Type 0} ⦃f : Float F⦄ where
  -- The rest of the entries does not use a name.
  unused_after-append :
      (name : Text) (before after : List (PhyProfileConfig F)) (entry : PhyProfileConfig F)
      → unused_after name (before ++ (entry ∷ after)) ≡ true
      → same_text name entry.name ≡ false
  unfolding unused_after
  unused_after-append name [] after entry h = ground arith
  unused_after-append name (first ∷ before) after entry h =
      unused_after-append name before after entry (ground arith)

  -- The lookup of an entry's name finds that entry: all entries before have other names.
  profile_config_named-finds :
      (profiles before after : List (PhyProfileConfig F)) (entry : PhyProfileConfig F)
      → entries_valid profiles (before ++ (entry ∷ after)) ≡ true
      → profile_config_named (before ++ (entry ∷ after)) entry.name ≡ some entry
  unfolding profile_config_named entries_valid
  profile_config_named-finds profiles [] after entry h =
      rw (same_text_refl entry.name, profile_config_named) refl
  profile_config_named-finds profiles (first ∷ before) after entry h =
      let other : unused_after first.name (before ++ (entry ∷ after)) ≡ true = ground arith in
      let apart = unused_after-append first.name before after entry other in
      rw (apart, profile_config_named)
        (profile_config_named-finds profiles before after entry (ground arith))

  entries_valid-has_rates :
      (profiles before after : List (PhyProfileConfig F)) (entry : PhyProfileConfig F)
      → entries_valid profiles (before ++ (entry ∷ after)) ≡ true
      → has_rates profiles entry ≡ true
  unfolding entries_valid
  entries_valid-has_rates profiles [] after entry h = ground arith
  entries_valid-has_rates profiles (first ∷ before) after entry h =
      entries_valid-has_rates profiles before after entry (ground arith)

  none_not_some : {p : PhyProfile F} → none ≢ some p
  none_not_some e = ground arith

  some_same : {p q : PhyProfile F} → some p ≡ some q → p ≡ q
  some_same e = ground arith

  checked :
      (entry : PhyProfileConfig F) (candidate profile : PhyProfile F)
      → (if profile_is_valid (shaped entry candidate) then some (shaped entry candidate) else none)
        ≡ some profile
      → profile_is_valid profile ≡ true
  checked entry candidate profile h =
      elim (Bool-cases (profile_is_valid (shaped entry candidate))) [
        | inl e ↦ subst (λ p. profile_is_valid p ≡ true) (some_same (rw e at h)) e
        | inr e ↦ absurd (none_not_some (rw e at h))
      ]

  profile_of-valid :
      (entry : PhyProfileConfig F) (profile : PhyProfile F)
      → profile_of entry ≡ some profile
      → profile_is_valid profile ≡ true
  unfolding profile_of
  profile_of-valid entry profile h = elim (Option-cases (modulation_named entry.modulation)) [
    | inl none_e ↦ absurd (none_not_some (rw (none_e, profile_of) at h))
    | inr (modulation, e1) ↦ elim (Bool-cases (entry_refused entry)) [
      | inl e2 ↦ absurd (none_not_some (rw (e1, e2, profile_of) at h))
      | inr e2 ↦
          elim (Option-cases (profile_psk modulation entry.symbol_rate_baud entry.carrier_hz)) [
            | inl none_e ↦ absurd (none_not_some (rw (e1, e2, none_e, profile_of) at h))
            | inr (candidate, e3) ↦
                checked entry candidate profile (rw (e1, e2, e3, profile_of) at h)
          ]
    ]
  ]

  phy_profile_named-valid :
      (profiles : List (PhyProfileConfig F)) (name : Text) (profile : PhyProfile F)
      → phy_profile_named profiles name ≡ some profile
      → profile_is_valid profile ≡ true
  unfolding phy_profile_named
  phy_profile_named-valid [] name profile h = absurd (ground arith)
  phy_profile_named-valid (entry ∷ entries) name profile h =
      elim (Bool-cases (same_text entry.name name)) [
        | inl e ↦ profile_of-valid entry profile (rw (e, phy_profile_named) at h)
        | inr e ↦ phy_profile_named-valid entries name profile (rw (e, phy_profile_named) at h)
      ]

  has_rates-some :
      (profiles : List (PhyProfileConfig F)) (entry : PhyProfileConfig F)
      → has_rates profiles entry ≡ true
      → (profile : PhyProfile F) × (rate : ModemRate) × (phy_profile_named profiles entry.name
          ≡ some profile)
        × (modem_profile_rate profile (fec_mode_of entry.fec_mode) entry.payload_class_bytes
            ≡ some rate)
  unfolding has_rates
  has_rates-some profiles entry h = elim (Option-cases (phy_profile_named profiles entry.name)) [
    | inl e1 ↦ absurd (false_not_true (rw (e1, has_rates) at h))
    | inr (profile, e1) ↦
        elim (Option-cases
          (modem_profile_rate profile (fec_mode_of entry.fec_mode) entry.payload_class_bytes)) [
            | inl e2 ↦ absurd (false_not_true (rw (e1, e2, has_rates) at h))
            | inr (rate, e2) ↦ (profile, rate, e1, e2)
          ]
  ]
    where
      false_not_true : false ≢ true
      false_not_true e = ground arith

  -- The parts of the test.
  pub valid_parts :
      (cos : F → F) (config : PlatformConfig F)
      → platform_config_is_valid cos config ≡ true
      → (entries_valid config.profiles config.profiles ≡ true)
        × (sizes_valid config ≡ true)
        × (gain_valid config.tx.filter_gain ≡ true)
        × (times_valid config.detector ≡ true)
        × ((profile : PhyProfile F) × (phy_profile_named config.profiles config.modem.profile
              ≡ some profile))
  unfolding platform_config_is_valid
  valid_parts cos config h =
      elim (Option-cases (phy_profile_named config.profiles config.modem.profile)) [
        | inl e ↦ absurd (false_not_true (rw (e, platform_config_is_valid) at h))
        | inr (profile, e) ↦
            let rest = rw (e, platform_config_is_valid) at h in
            let (rest1, times) = and-true rest in
            let (rest2, gain) = and-true rest1 in
            let (rest3, sizes) = and-true rest2 in
            let (rest4, _) = and-true rest3 in
            let (rest5, _) = and-true rest4 in
            let (_, entries) = and-true rest5 in (entries, sizes, gain, times, (profile, e))
      ]
    where
      false_not_true : false ≢ true
      false_not_true e = ground arith

  -- In a valid configuration every profile is found by its name, and by no other's; that name stands
  -- for a valid physical profile, which with the mode and the payload class of the entry has rates, and
  -- frames of at most 90000 samples.
  pub valid_profiles :
      (cos : F → F) (config : PlatformConfig F) (before after : List (PhyProfileConfig F))
      (entry : PhyProfileConfig F)
      → platform_config_is_valid cos config ≡ true
      → config.profiles ≡ before ++ (entry ∷ after)
      → (profile_config_named config.profiles entry.name ≡ some entry)
        × ((profile : PhyProfile F) × (rate : ModemRate) × (phy_profile_named config.profiles
                entry.name
              ≡ some profile)
            × (profile_is_valid profile ≡ true)
            × (modem_profile_rate profile (fec_mode_of entry.fec_mode) entry.payload_class_bytes
                ≡ some rate)
            × (rate.frame_samples ≤ max_audio_samples))
  valid_profiles cos config before after entry h split =
      let entries = (valid_parts cos config h).0 in
      let here = subst (λ l. entries_valid config.profiles l ≡ true) split entries in
      let (profile, rate, e1, e2) =
        has_rates-some config.profiles entry
          (entries_valid-has_rates config.profiles before after entry here) in
      (
        subst (λ l. profile_config_named l entry.name ≡ some entry) (sym split)
            (profile_config_named-finds config.profiles before after entry here),
        (
          profile,
          rate,
          e1,
          phy_profile_named-valid config.profiles entry.name profile e1,
          e2,
          modem_profile_rate-fits profile (fec_mode_of entry.fec_mode) entry.payload_class_bytes
              rate e2,
        ),
      )
