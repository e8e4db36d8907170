-- ===== src/ProtoFile/Known.antt =====
-- lib/CodeGen/ProtoFileGenerator.cpp: what is kept between the generated messages, in the terms of the
-- file that they are for.
use program_partitioning_for.Base.{
  ℕ, suc, ◌+◌, ◌≡◌, refl, Bool, true, false, ◌&&◌, ◌||◌, List, [], ◌∷◌, ◌++◌, none, some, arith,
  ◌==◌, any, all, all-append, all_weaken, any-append, find, find-emplace, length, Bool-cases, inl,
  inr, Option-cases, ◌⊎◌,
}
use program_partitioning_for.Texts.{String, str_eq, str_eq_refl, contains_text}
use program_partitioning_for.ProtoFile.{Field, ProtoMessage, add_message}
use program_partitioning_for.ProtoFile.Generator.{
  TypeRef, TypeKind, integer_type, float_type, double_type, other_type, pointer_type, array_type,
  vector_type, struct_type, ProgramTypes, Outcome, done, asserted, undefined, unfinished, ◌>>=◌,
  get_scalar_type, Generator, get_message_name_for_type, add_type_message,
}

-- What a call that returns after `>>=` has done before.
pub bind_inv {ℓ ℓ'} :
    {A : Type ℓ} {B : Type ℓ'} (o : Outcome A) (f : A → Outcome B) (b : B)
    → (o >>= f) ≡ done b
    → (a : A) × (o ≡ done a) × (f a ≡ done b)
unfolding ◌>>=◌
bind_inv (done a) f b h = (a, refl, h)
bind_inv asserted f b h = ground (arith, h)
bind_inv undefined f b h = ground (arith, h)
bind_inv unfinished f b h = ground (arith, h)

-- The texts that getScalarType gives.
abbrev scalar_types : List String
scalar_types = "bool" ∷ "int32" ∷ "int64" ∷ "int" ∷ "float" ∷ "double" ∷ []

-- A message of the file has the name.
abbrev pub defines : List ProtoMessage → String → Bool
defines messages s = any (λ m. str_eq m.name s) messages

-- The type of a field is a scalar or a message of the file.
abbrev pub is_closed_field : List ProtoMessage → Field → Bool
is_closed_field messages f = contains_text scalar_types f.type_name || defines messages f.type_name

abbrev pub is_closed_message : List ProtoMessage → ProtoMessage → Bool
is_closed_message messages m = all (is_closed_field messages) m.fields

-- The numbers of the fields, from `i` on, are consecutive.
unfoldable pub is_numbered : ℕ → List Field → Bool
is_numbered i [] = true
is_numbered i (f ∷ fs) = (f.number == i) && is_numbered (suc i) fs

pub is_numbered-push :
    (i : ℕ) (fs : List Field) (f : Field)
    → is_numbered i fs ≡ true
    → f.number ≡ i + length fs
    → is_numbered i (fs ++ f ∷ []) ≡ true
unfolding is_numbered
is_numbered-push i [] f h e = ground (arith, e)
is_numbered-push i (g ∷ fs) f h e = ground (arith, is_numbered-push (suc i) fs f, h, e)

pub get_scalar_type-text :
    (k : TypeKind) (s : String) → get_scalar_type k ≡ done s → contains_text scalar_types s ≡ true
unfolding get_scalar_type contains_text
get_scalar_type-text (integer_type w) s h = ground (arith, h, str_eq_refl s)
get_scalar_type-text float_type s h = ground (arith, h, str_eq_refl s)
get_scalar_type-text double_type s h = ground (arith, h, str_eq_refl s)
get_scalar_type-text other_type s h = ground (arith, h)
get_scalar_type-text (pointer_type t) s h = ground (arith, h)
get_scalar_type-text (array_type t) s h = ground (arith, h)
get_scalar_type-text (vector_type t) s h = ground (arith, h)
get_scalar_type-text (struct_type n ts) s h = ground (arith, h)

-- The types of the names: the message of a type has the name that getMessageNameForType gives it.
abbrev pub IsNamed : ProgramTypes → TypeRef → String → Type 0
IsNamed types t s = (fuel : ℕ) × (get_message_name_for_type types fuel t ≡ done s)

-- What holds between the messages.
pub record IsKept (types : ProgramTypes) (g : Generator) : Type 0 where
  pub named :
      (t : TypeRef) (m : ProtoMessage) → find t g.type_messages ≡ some m → IsNamed types t m.name
  pub defined :
      (t : TypeRef) (m : ProtoMessage)
      → find t g.type_messages ≡ some m
      → defines g.proto_file.messages m.name ≡ true
  pub closed : all (is_closed_message g.proto_file.messages) g.proto_file.messages ≡ true
  pub numbered : all (λ m. is_numbered 1 m.fields) g.proto_file.messages ≡ true

abbrev pub is_known : Generator → TypeRef → Bool
is_known g t = elim (find t g.type_messages) [ none ↦ false | some m ↦ true ]

-- A later generator has the types and the messages of an earlier one.
pub record Extends (g g1 : Generator) : Type 0 where
  pub known : (t : TypeRef) → is_known g t ≡ true → is_known g1 t ≡ true
  pub defined :
      (s : String)
      → defines g.proto_file.messages s ≡ true
      → defines g1.proto_file.messages s ≡ true

pub Extends-refl : (g : Generator) → Extends g g
Extends-refl g = record { known = λ t h. h; defined = λ s h. h }

pub Extends-trans : {a b c : Generator} → Extends a b → Extends b c → Extends a c
Extends-trans p q = record {
  known = λ t h. q.known t (p.known t h);
  defined = λ s h. q.defined s (p.defined s h);
}

pub is_closed_field_later :
    {g g1 : Generator} (f : Field)
    → Extends g g1
    → is_closed_field g.proto_file.messages f ≡ true
    → is_closed_field g1.proto_file.messages f ≡ true
is_closed_field_later f e h = ground (arith, h, e.defined f.type_name)

pub is_closed_fields_later :
    {g g1 : Generator} (fs : List Field)
    → Extends g g1
    → all (is_closed_field g.proto_file.messages) fs ≡ true
    → all (is_closed_field g1.proto_file.messages) fs ≡ true
is_closed_fields_later {g} {g1} fs e h =
    all_weaken (is_closed_field g.proto_file.messages) (is_closed_field g1.proto_file.messages) fs
      (λ f. is_closed_field_later f e) h

pub add_type_message-Extends :
    (t : TypeRef) (m : ProtoMessage) (g : Generator) → Extends g (add_type_message t m g)
unfolding add_type_message add_message
add_type_message-Extends t m g = record {
  known = λ u h. ground (arith, find-emplace t m g.type_messages u, h);
  defined =
      λ s h. ground (arith, any-append (λ n. str_eq n.name s) g.proto_file.messages (m ∷ []), h);
}

add_type_message-defines :
    (t : TypeRef) (m : ProtoMessage) (g : Generator)
    → defines (add_type_message t m g).proto_file.messages m.name ≡ true
unfolding add_type_message add_message any
add_type_message-defines t m g = ground (
  arith,
  any-append (λ n. str_eq n.name m.name) g.proto_file.messages (m ∷ []),
  str_eq_refl m.name,
)

pub add_type_message-known :
    (t : TypeRef) (m : ProtoMessage) (g : Generator) → is_known (add_type_message t m g) t ≡ true
unfolding add_type_message
add_type_message-known t m g = ground (arith, find-emplace t m g.type_messages t)

find-add_type_message :
    (t : TypeRef) (msg : ProtoMessage) (g : Generator) (u : TypeRef) (m : ProtoMessage)
    → find u (add_type_message t msg g).type_messages ≡ some m
    → (find u g.type_messages ≡ some m) ⊎ ((u ≡ t) × (m ≡ msg))
unfolding add_type_message
find-add_type_message t msg g u m h = elim (Bool-cases (t == u)) [
  | inl e ↦ elim (Option-cases (find t g.type_messages)) [
    | inl no_message ↦
        inr (
          ground (arith, e),
          ground (arith, find-emplace t msg g.type_messages u, h, e, no_message),
        )
    | inr (n, there) ↦ inl (ground (arith, find-emplace t msg g.type_messages u, h, e, there))
  ]
  | inr e ↦ inl (ground (arith, find-emplace t msg g.type_messages u, h, e))
]

closed_add_type_message :
    (t : TypeRef) (msg : ProtoMessage) (g : Generator)
    → all (is_closed_message g.proto_file.messages) g.proto_file.messages ≡ true
    → all (is_closed_field g.proto_file.messages) msg.fields ≡ true
    → let messages = (add_type_message t msg g).proto_file.messages in
      all (is_closed_message messages) messages ≡ true
unfolding add_type_message add_message all
closed_add_type_message t msg g old new =
    let later = add_type_message-Extends t msg g in
    let messages = g.proto_file.messages ++ msg ∷ [] in
    ground (
      arith,
      all-append (is_closed_message messages) g.proto_file.messages (msg ∷ []),
      all_weaken (is_closed_message g.proto_file.messages) (is_closed_message messages)
          g.proto_file.messages (λ m. is_closed_fields_later m.fields later) old,
      is_closed_fields_later msg.fields later new,
    )

numbered_add_type_message :
    (t : TypeRef) (msg : ProtoMessage) (g : Generator)
    → all (λ m. is_numbered 1 m.fields) g.proto_file.messages ≡ true
    → is_numbered 1 msg.fields ≡ true
    → all (λ m. is_numbered 1 m.fields) (add_type_message t msg g).proto_file.messages ≡ true
unfolding add_type_message add_message all
numbered_add_type_message t msg g old new =
    ground
      (arith, all-append (λ m. is_numbered 1 m.fields) g.proto_file.messages (msg ∷ []), old, new)

-- A message for a type, with its name, fields of known types, and numbers from 1 on, keeps them.
pub add_type_message-IsKept :
    (types : ProgramTypes) (t : TypeRef) (msg : ProtoMessage) (g : Generator)
    → IsKept types g
    → IsNamed types t msg.name
    → all (is_closed_field g.proto_file.messages) msg.fields ≡ true
    → is_numbered 1 msg.fields ≡ true
    → IsKept types (add_type_message t msg g)
add_type_message-IsKept types t msg g k name closed numbered =
    let later = add_type_message-Extends t msg g in
    record {
      named = λ u m h. elim (find-add_type_message t msg g u m h) [
        | inl old ↦ k.named u m old
        | inr (e, e') ↦ rw e (rw e' name)
      ];
      defined = λ u m h. elim (find-add_type_message t msg g u m h) [
        | inl old ↦ later.defined m.name (k.defined u m old)
        | inr (e, e') ↦ rw e' (add_type_message-defines t msg g)
      ];
      closed = closed_add_type_message t msg g k.closed closed;
      numbered = numbered_add_type_message t msg g k.numbered numbered;
    }
