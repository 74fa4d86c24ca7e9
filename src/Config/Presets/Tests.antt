-- ===== src/Config/Presets/Tests.antt =====
-- One preset under a small configuration.
use review_agent.Common.{◌≡◌, refl, some, [], ◌∷◌, Text, text, text_eq, ok, err}
use review_agent.Config.Presets.{
  other, object, Fields, end, field, Document, fields, preset_cycle, preset_not_found, lookup,
  resolve_extends_presets,
}
use review_agent.Config.Presets.Paths.{get, IsRecord, of_end, of_field, of_object, of_other}
use review_agent.Config.Presets.Wins.{get-resolve_extends_presets}

abbrev cost : Text → Fields → Fields
cost amount rest = field (text "cost") (object (field (text "cap") (other amount) rest)) end

abbrev parse : Text → Document
parse t = fields (cost (text "1") (field (text "hard") (other (text "true")) end))

abbrev repo : Fields
repo = cost (text "2") end

abbrev both : Fields
both = cost (text "2") (field (text "hard") (other (text "true")) end)

repo_over_preset : resolve_extends_presets parse (text "strict" ∷ []) repo ≡ ok both
unfolding resolve_extends_presets
repo_over_preset = refl

twice :
    resolve_extends_presets parse (text "strict" ∷ text "strict" ∷ []) repo
    ≡ err (preset_cycle (text "strict" ∷ text "strict" ∷ []))
unfolding resolve_extends_presets
twice = refl

org_in_list :
    resolve_extends_presets parse (text "strict" ∷ text "org" ∷ []) repo
    ≡ err (preset_not_found (text "org"))
unfolding resolve_extends_presets
org_in_list = refl

repo-IsRecord : IsRecord repo
unfolding lookup
repo-IsRecord =
    of_field (text "cost") _ end refl
      (of_object (field (text "cap") (other (text "2")) end)
        (of_field (text "cap") (other (text "2")) end refl (of_other (text "2")) of_end))
      of_end

get-resolve_extends_presets_example :
    get (text "cost" ∷ text "cap" ∷ []) (object both) ≡ some (other (text "2"))
get-resolve_extends_presets_example =
    get-resolve_extends_presets parse (text "strict" ∷ []) repo both repo_over_preset
      (text "cost" ∷ text "cap" ∷ []) (other (text "2")) repo-IsRecord tt
      (unfold lookup text_eq in refl)
