-- ===== src/Llm.antt =====
-- Provider keys of language models: their encryption, and the choice of the key of a call
-- (app/llm/crypto.py, app/llm/service.py).
pub mod Crypto
pub mod Keys
