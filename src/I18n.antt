-- ===== src/I18n.antt =====
-- Translations and the choice of a language: `t`, `getBrowserLanguage`, `loadLanguage` and
-- `initI18n` of web/static/js/custom.js.
pub mod Translate
pub mod Language
pub mod Filling
pub mod Laws
mod Tests
