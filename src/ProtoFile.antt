-- ===== src/ProtoFile.antt =====
-- include/CodeGen/ProtoMessage.h, ProtoService.h and ProtoFile.h: the contents of a .proto file.
pub mod Generator
pub mod Known
mod Fields
pub mod Closed
pub mod Layers
pub mod Ends
pub mod Diverges
pub mod Writer
use program_partitioning_for.Base.{ℕ, List, [], ◌∷◌, ◌++◌}
use program_partitioning_for.Base.Int.{ℤ}
use program_partitioning_for.Texts.{String}

-- ProtoMessage::Field; the generators give no negative m_number.
pub record Field : Type 0 where
  pub attribute : String
  pub type_name : String
  pub name : String
  pub number : ℕ

-- A Field as it is declared.
abbrev pub new_field : Field
new_field = record { attribute = ""; type_name = ""; name = ""; number = 1 }

-- ProtoMessage::Enum
pub record ProtoEnum : Type 0 where
  pub name : String
  pub values : List (String × ℤ)

pub record ProtoMessage : Type 0 where
  pub name : String
  pub fields : List Field
  pub enums : List ProtoEnum

abbrev pub new_message : String → ProtoMessage
new_message name = record { name = name; fields = []; enums = [] }

-- addField
unfoldable pub add_field : Field → ProtoMessage → ProtoMessage
add_field f msg = record msg { fields = msg.fields ++ f ∷ [] }

-- ProtoService::RPC
pub record Rpc : Type 0 where
  pub name : String
  pub input : ProtoMessage
  pub output : ProtoMessage

pub record ProtoService : Type 0 where
  pub name : String
  pub rpcs : List Rpc

-- The imports are their names.
pub record ProtoFile : Type 0 where
  pub version : String
  pub package_name : String
  pub imports : List String
  pub services : List ProtoService
  pub messages : List ProtoMessage

abbrev pub new_proto_file : ProtoFile
new_proto_file = record {
  version = "";
  package_name = "";
  imports = [];
  services = [];
  messages = [];
}

-- addMessage
unfoldable pub add_message : ProtoMessage → ProtoFile → ProtoFile
add_message msg file = record file { messages = file.messages ++ msg ∷ [] }
