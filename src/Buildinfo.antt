-- ===== src/Buildinfo.antt =====
-- internal/buildinfo/buildinfo.go: what the version says. The values set by the linker and what
-- runtime/debug reads are parameters.
use relayforge.Prelude.{
  if◌then◌else◌, arith, ◌∷◌, [], List, some, none, Option, ◌&&◌, not, false, Bool, ◌∙◌, refl, ◌≡◌,
}
use relayforge.Prelude.Text.{Text, codes, is_empty, text_eq}

pub record Info : Type 0 where
  pub version : Text
  pub commit : Text
  pub built_at : Text
  pub go_version : Text
  pub dirty : Bool

-- debug.BuildInfo: the version of the main module, and the settings.
pub record BuildDetails : Type 0 where
  pub main_version : Text
  pub settings : List (Text × Text)

-- A round of the loop over the settings.
unfoldable pub apply_setting : Text × Text → Info → Info
apply_setting (key, setting) info =
    if text_eq key (codes "vcs.revision")
    then record info {
      commit = if text_eq info.commit (codes "none") then setting else info.commit;
    }
    else if text_eq key (codes "vcs.time")
    then record info {
      built_at = if text_eq info.built_at (codes "unknown") then setting else info.built_at;
    }
    else if text_eq key (codes "vcs.modified")
    then record info { dirty = text_eq setting (codes "true") }
    else info

unfoldable pub apply_settings : List (Text × Text) → Info → Info
unfolding apply_setting
apply_settings [] info = info
apply_settings (s ∷ ss) info = apply_settings ss (apply_setting s info)

-- Current, of the values that the linker has set.
unfoldable pub current : Text → Text → Text → Text → Option BuildDetails → Info
unfolding apply_settings
current version commit built_at go_version none = record {
  version = version;
  commit = commit;
  built_at = built_at;
  go_version = go_version;
  dirty = false;
}
current version commit built_at go_version (some details) =
    apply_settings details.settings (record {
      version =
          if text_eq version (codes "dev")
            && not (is_empty details.main_version)
            && not (text_eq details.main_version (codes "(devel)"))
          then details.main_version
          else version;
      commit = commit;
      built_at = built_at;
      go_version = go_version;
      dirty = false;
    })

-- What the linker has set is kept by the loop.
apply_setting-keeps :
    (s : Text × Text) (info : Info)
    → ((apply_setting s info).version ≡ info.version)
      × (text_eq info.commit (codes "none") ≡ false → (apply_setting s info).commit ≡ info.commit)
      × (text_eq info.built_at (codes "unknown") ≡ false
          → (apply_setting s info).built_at ≡ info.built_at)
unfolding apply_setting
apply_setting-keeps (key, setting) info = (ground arith, (λ h. ground arith), λ h. ground arith)

apply_settings-keeps :
    (ss : List (Text × Text)) (info : Info)
    → ((apply_settings ss info).version ≡ info.version)
      × (text_eq info.commit (codes "none") ≡ false → (apply_settings ss info).commit ≡ info.commit)
      × (text_eq info.built_at (codes "unknown") ≡ false
          → (apply_settings ss info).built_at ≡ info.built_at)
unfolding apply_settings
apply_settings-keeps [] info = (refl, (λ h. refl), λ h. refl)
apply_settings-keeps (s ∷ ss) info =
    let (v, c, b) = apply_setting-keeps s info in
    let (vs, cs, bs) = apply_settings-keeps ss (apply_setting s info) in
    (vs ∙ v, (λ h. cs (rw (c h) h) ∙ c h), λ h. bs (rw (b h) h) ∙ b h)

-- A version, a commit and a time that the linker has set are those that Current shows, whatever the
-- runtime has recorded.
pub current-keeps :
    (version commit built_at go_version : Text) (details : Option BuildDetails)
    → text_eq version (codes "dev") ≡ false
    → text_eq commit (codes "none") ≡ false
    → text_eq built_at (codes "unknown") ≡ false
    → let info = current version commit built_at go_version details in
      (info.version ≡ version) × (info.commit ≡ commit) × (info.built_at ≡ built_at)
unfolding current
current-keeps version commit built_at go_version none v c b = (refl, refl, refl)
current-keeps version commit built_at go_version (some details) v c b =
    let (vs, cs, bs) = apply_settings-keeps details.settings _ in (vs ∙ rw v refl, cs c, bs b)
