-- ===== src/DeepCopy/Parts.antt =====
-- Types with the copy of their values, put together the way a struct is made of its fields.
use kink.Base.{ℤ, String, ◌≡◌, List, Option, Action, pure, ◌>>=◌}
use kink.DeepCopy.Structs.{Address, ForeignTypes, Cell}
use kink.DeepCopy.Memory.{Codec}
use kink.DeepCopy.Shapes.{Shape, plain, pair, list, reference, of_parts}
use kink.DeepCopy.Copies.{
  copy_target, copy_items, copy_pair, IsDeepCopy, plain-IsDeepCopy, pair-IsDeepCopy,
  copy_items-IsDeepCopy, copy_target-IsDeepCopy, of_parts-IsDeepCopy,
}
use kink.DeepCopy.Codecs.{string_codec, int32_codec, conditions_codec}
use kink.DeepCopy.Foreign.{ForeignCopies, AreDeepCopies}

pub record Part (K : Type 0) (A : Type 0) : Type 1 where
  pub shape : Shape K A
  pub copy : A → Action (List K) A
  pub deep : IsDeepCopy shape copy

module _ {K : Type 0} where
  -- Assigned.
  abbrev pub kept : (A : Type 0) → Part K A
  kept A = record { shape = plain A; copy = pure; deep = plain-IsDeepCopy A }

  abbrev pub and_then : {A B : Type 0} → Part K A → Part K B → Part K (A × B)
  and_then p q = record {
    shape = pair p.shape q.shape;
    copy = copy_pair p.shape q.shape p.copy q.copy;
    deep = pair-IsDeepCopy p.shape q.shape p.copy q.copy p.deep q.deep;
  }

  abbrev pub items : {A : Type 0} → Part K A → Part K (List A)
  items p = record {
    shape = list p.shape;
    copy = copy_items p.copy;
    deep = copy_items-IsDeepCopy p.shape p.copy p.deep;
  }

  abbrev pub target : {A : Type 0} → Codec K A → Part K A → Part K (Option Address)
  target codec p = record {
    shape = reference codec p.shape;
    copy = copy_target codec p.copy;
    deep = copy_target-IsDeepCopy p.shape p.copy p.deep codec;
  }

-- The struct that consists of the parts.
pub whole-IsDeepCopy :
    {K A B : Type 0} (p : Part K B) (parts : A → B) (build : A → B → A)
    → ((a : A) (b : B) → parts (build a b) ≡ b)
    → (copy : A → Action (List K) A)
    → ((a : A) (h : List K) → copy a h ≡ (p.copy (parts a) >>= λ b. pure (build a b)) h)
    → IsDeepCopy (of_parts parts p.shape) copy
whole-IsDeepCopy p parts build back copy same =
    of_parts-IsDeepCopy parts build back p.shape p.copy copy same p.deep

-- The pointers that several structs have.
abbrev pub text_shape : (F : ForeignTypes) → Shape (Cell F) (Option Address)
text_shape F = reference (string_codec F) (plain String)

abbrev pub number_shape : (F : ForeignTypes) → Shape (Cell F) (Option Address)
number_shape F = reference (int32_codec F) (plain ℤ)

abbrev pub text : (F : ForeignTypes) → Part (Cell F) (Option Address)
text F = target (string_codec F) (kept String)

abbrev pub number : (F : ForeignTypes) → Part (Cell F) (Option Address)
number F = target (int32_codec F) (kept ℤ)

module _ {F : ForeignTypes} (L : ForeignCopies F) where
  abbrev pub conditions_shape : Shape (Cell F) (Option Address)
  conditions_shape = reference (conditions_codec F) (list L.condition_shape)

  module _ (deep : AreDeepCopies F L) where
    abbrev pub object_meta : Part (Cell F) F.ObjectMeta
    object_meta = record {
      shape = L.object_meta_shape;
      copy = L.copy_object_meta;
      deep = deep.object_meta_deep;
    }

    abbrev pub list_meta : Part (Cell F) F.ListMeta
    list_meta = record {
      shape = L.list_meta_shape;
      copy = L.copy_list_meta;
      deep = deep.list_meta_deep;
    }

    abbrev pub condition : Part (Cell F) F.Condition
    condition = record {
      shape = L.condition_shape;
      copy = L.copy_condition;
      deep = deep.condition_deep;
    }

    abbrev pub conditions : Part (Cell F) (Option Address)
    conditions = target (conditions_codec F) (items condition)
