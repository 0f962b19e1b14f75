-- ===== src/Ir/Types.antt =====
-- The data model of src/domain/ir/mod.rs. A float is its bit pattern, as in a JSON number.
use local_proxy.Base.{ℕ, Bool, Option, List, Text, Dict}
use local_proxy.Json.{Value}
use local_proxy.Usage.{TokenUsage}

pub data Format : Type 0 where
  anthropic openai responses : Format

pub data Role : Type 0 where
  user assistant : Role

pub record Cache : Type 0 where
  pub ttl : Option Text

pub data Image : Type 0 where
  url : Text → Image
  base64 : (media_type payload : Text) → Image

pub record ToolCall : Type 0 where
  pub id : Text
  pub name : Text
  pub arguments : Value

pub record ToolResult : Type 0 where
  pub call_id : Text
  pub content : Text
  pub is_error : Bool

pub data Part : Type 0 where
  text : Text → Part
  image : Image → Part
  tool_call : ToolCall → Part
  tool_result : ToolResult → Part
  reasoning : (words : Text) (signature : Option Text) → Part

pub record Block : Type 0 where
  pub part : Part
  pub cache : Option Cache

pub record Message : Type 0 where
  pub role : Role
  pub content : List Block

pub data Tool : Type 0 where
  function : (name description : Text) (schema : Value) (cache : Option Cache) → Tool
  web_search : Tool

pub data ToolChoice : Type 0 where
  auto none required : ToolChoice
  named : Text → ToolChoice

pub data Effort : Type 0 where
  minimal low medium high max : Effort

-- Keys are "<format>:<field>".
abbrev pub Ext : Type 0
Ext = Dict Value

pub record Request : Type 0 where
  pub model : Text
  pub system : List Block
  pub messages : List Message
  pub tools : List Tool
  pub tool_choice : Option ToolChoice
  pub max_tokens : Option ℕ
  pub temperature : Option ℕ
  pub top_p : Option ℕ
  pub stop : List Text
  pub effort : Option Effort
  pub stream : Bool
  pub cache_key : Option Text
  pub ext : Ext

pub data StopReason : Type 0 where
  end_turn max_tokens tool_use stop_sequence : StopReason

pub record Response : Type 0 where
  pub id : Text
  pub model : Text
  pub content : List Part
  pub stop : StopReason
  pub created : Option ℕ
  pub usage : TokenUsage
  pub ext : Ext

pub data BlockKind : Type 0 where
  text reasoning : BlockKind
  tool_call : (id name : Text) → BlockKind

pub data Event : Type 0 where
  start : (id model : Text) → Event
  block_start : (index : ℕ) → BlockKind → Event
  delta : (index : ℕ) → Text → Event
  block_stop : (index : ℕ) → Event
  usage : TokenUsage → Event
  finish : StopReason → Event
