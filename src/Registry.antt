-- ===== src/Registry.antt =====
-- An abstract view of a service that keeps things by name: a registry of their IDs. Losant keeps an
-- application's devices so, and Rancher its clusters.
use losant_device.Prelude.{String, ◌≡◌, sym, ◌∙◌, Option, none, some}

-- The operation on the registry: a name that has a device keeps it, a name that has none gets one,
-- and no other name's device changes.
pub data Ensures (name : String) (before after : String → Option String) (id : String)
    : Type 0 where
  kept :
      before name ≡ some id
      → ((other : String) → after other ≡ before other)
      → Ensures name before after id
  added :
      before name ≡ none
      → after name ≡ some id
      → ((other : String) → ¬ (other ≡ name) → after other ≡ before other)
      → Ensures name before after id

pub Ensures-from :
    {name id : String} {before between after : String → Option String}
    → ((other : String) → between other ≡ before other)
    → Ensures name between after id
    → Ensures name before after id
Ensures-from {name = name} same (kept has keeps) =
    kept (sym (same name) ∙ has) (λ other. keeps other ∙ same other)
Ensures-from {name = name} same (added absent has keeps) =
    added (sym (same name) ∙ absent) has (λ other apart. keeps other apart ∙ same other)

pub Ensures-after :
    {name id : String} {before after : String → Option String}
    → Ensures name before after id
    → after name ≡ some id
Ensures-after {name = name} (kept has keeps) = keeps name ∙ has
Ensures-after (added absent has keeps) = has

pub Ensures-known :
    {name id known : String} {before after : String → Option String}
    → before name ≡ some known
    → Ensures name before after id
    → id ≡ known
Ensures-known k (kept has keeps) = cc
Ensures-known k (added absent has keeps) = cc
