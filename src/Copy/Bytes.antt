-- ===== src/Copy/Bytes.antt =====
-- What the stores hold behind a Copy (internal/usecase/node_copy.go).
use omniflow_go.Prelude.{ℕ, ◌≡◌, ◌≢◌, Option, none, some, List, [], ◌∷◌, All}
use omniflow_go.Text.{Text}
use omniflow_go.Result.{Result, ok}
use omniflow_go.Copy.{NodeCopyItem}
use omniflow_go.Copy.Objects.{Calls}
use omniflow_go.Copy.Single.{IsLawful}

-- The keys of the copies differ from each other and from those of the sources.
abbrev pub AreFresh : {S : Type 0} → List (NodeCopyItem S) → List (NodeCopyItem S) → Type 0
AreFresh sources [] = Unit
AreFresh sources (item ∷ items) =
    All (λ other. other.key ≢ item.key) items
    × All (λ source. source.node.storage_key ≢ item.key) sources
    × AreFresh sources items

-- The items that have an object.
abbrev pub if_stored :
    {S : Type 0} → Option S → NodeCopyItem S → List (NodeCopyItem S) → List (NodeCopyItem S)
if_stored none item items = items
if_stored (some s) item items = item ∷ items

abbrev pub stored : {S : Type 0} → List (NodeCopyItem S) → List (NodeCopyItem S)
stored [] = []
stored (item ∷ items) = if_stored item.store item (stored items)

-- The copy of an item holds the bytes of its source.
abbrev pub IsCopied :
    {S X : Type 0} → (S → Text → X → Option (List ℕ)) → X → X → NodeCopyItem S → Type 0
IsCopied content before after item =
    (s : _)
    → item.store ≡ some s
    → content s item.key after ≡ content s item.node.storage_key before

module _ {S D X : Type 0} (c : Calls S D X) (content : S → Text → X → Option (List ℕ))
    (lawful : IsLawful c content) where
  abbrev Loop : Type 0
  Loop = Result (Unit {0}) × List (S × Text) × X

  -- The loop over the objects, from `x` on.
  abbrev IsLoop : List (NodeCopyItem S) → X → Loop → Type 0
  IsLoop items x r =
      ((s : S) (k : Text) → All (λ i. k ≢ i.key) items → content s k r.2 ≡ content s k x)
      × (r.0 ≡ ok tt → All (IsCopied content x r.2) items)
