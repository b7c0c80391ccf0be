-- ===== src/Template.antt =====
-- packages/core/src/template.ts: the templates of the Telegram text and the mail subject.
pub mod Tokens
pub mod Parse
pub mod Render
pub mod Escaping
pub mod Markup
pub mod Balance
pub mod Spelling
pub mod RoundTrip
pub mod Inherited
mod Tests
