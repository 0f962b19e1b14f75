-- ===== src/Ir.antt =====
-- src/domain/ir: the format-neutral representation, and the stream decoders over it.
pub mod Types
pub mod Turns
pub mod Emitter
pub mod Steps
pub mod Late
pub mod Protocol
mod Fresh
pub mod Simulation
pub mod Openai
mod OpenaiLife
mod OpenaiSteps
mod OpenaiDeltas
pub mod OpenaiAccepts
pub mod Anthropic
pub mod AnthropicAccepts
pub mod AnthropicEncoder
pub mod AnthropicClient
pub mod AnthropicServed
pub mod AnthropicHeard
pub mod OpenaiEncoder
pub mod OpenaiClient
pub mod OpenaiServed
pub mod Responses
mod ResponsesHeld
mod ResponsesSteps
mod ResponsesTypes
pub mod ResponsesWords
pub mod ResponsesTold
pub mod ResponsesAccepts
pub mod ResponsesEncoder
pub mod ResponsesEvents
pub mod ResponsesClient
mod ResponsesItems
mod ResponsesReads
mod OpenaiReads
pub mod ResponsesServed
pub mod Formats
pub mod Fold
pub mod Folded
pub mod ResponsesBody
pub mod ResponsesRoundTrip
pub mod Aggregate
pub mod Media
