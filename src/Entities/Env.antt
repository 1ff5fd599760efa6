-- ===== src/Entities/Env.antt =====
-- entities/src/process/env.rs
use pm.Base.{List, [], ◌∷◌, Text, codes, text_eq, text_lt, if◌then◌else◌}

pub data EnvScope : Type 0 where
  injected global app : EnvScope

unfoldable pub as_str : EnvScope → Text
as_str injected = codes "pm3"
as_str global = codes "global"
as_str app = codes "app"

pub record EnvValue : Type 0 where
  pub key : Text
  pub value : Text
  pub scope : EnvScope

pub pair : EnvValue → Text × Text
pair entry = (entry.key, entry.value)

-- `BTreeMap::insert` on the map's entries in key order: an entry of the same key is replaced.
insert_entry : EnvValue → List EnvValue → List EnvValue
insert_entry e [] = e ∷ []
insert_entry e (f ∷ rest) =
    let later = insert_entry e rest in
    if text_lt e.key f.key
    then e ∷ f ∷ rest
    else if text_eq e.key f.key
    then e ∷ rest
    else f ∷ later

merge_layer : List EnvValue → List EnvValue → List EnvValue
unfolding insert_entry
merge_layer merged [] = merged
merge_layer merged (entry ∷ layer) = merge_layer (insert_entry entry merged) layer

merge_layers : List EnvValue → List (List EnvValue) → List EnvValue
unfolding merge_layer
merge_layers merged [] = merged
merge_layers merged (layer ∷ layers) = merge_layers (merge_layer merged layer) layers

unfoldable pub merge_environment : List (List EnvValue) → List EnvValue
unfolding merge_layers
merge_environment layers = merge_layers [] layers
