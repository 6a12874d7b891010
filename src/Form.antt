-- ===== src/Form.antt =====
-- rustlette/formparsers.py: the two parsers of forms.
pub mod Upload
pub mod MultiPart
pub mod UrlEncoded
mod Tests
