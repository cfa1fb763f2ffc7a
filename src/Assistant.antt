-- ===== src/Assistant.antt =====
-- The accessibility assistant (app/slots/accessibility_assistant): its retry loops, the sharing of
-- resources, the ratings of interactions, the match of a question, and the gate of generated FAQs.
pub mod Sanitizer
pub mod Catalog
pub mod Grants
pub mod Answering
pub mod Retry
pub mod Sharing
pub mod Interactions
pub mod Matching
pub mod Generation
