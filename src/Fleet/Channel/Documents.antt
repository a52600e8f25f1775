-- ===== src/Fleet/Channel/Documents.antt =====
-- channel.py: a report that is written as a document and read back.
use aiggp_agentic_framework.Base.{
  String, true, false, some, ok, ◌>>=◌, each, >>=-eq-ok, require-ok, require_some-ok, refuse_if-ok,
  ==_to_eq, ◌≡◌, refl, sym, ap, ◌∙◌, string_dec, some-injective, ltb,
}
use aiggp_agentic_framework.Fleet.Wire.{Json, Platform, member_of, member_names}
use aiggp_agentic_framework.Fleet.Channel.Credentials.{max_body_bytes}
use aiggp_agentic_framework.Fleet.Channel.Envelopes.{
  ChannelEnvelope, is_hex, is_object, body_json, check_envelope, envelope_to_document,
  envelope_from_document,
}

body_json-place :
    (p : Platform) (body : Json) (place place' line : String)
    → body_json p body place ≡ ok line
    → body_json p body place' ≡ ok line
unfolding body_json ◌>>=◌
body_json-place p body place place' line h =
    let (x1, p1, h1) = >>=-eq-ok _ _ h in
    let (text, p2, h2) = >>=-eq-ok _ _ h1 in
    let (x3, p3, h3) = >>=-eq-ok _ _ h2 in
    let object_lem : is_object body ≡ true = require-ok _ _ p1 in
    let small : ltb max_body_bytes (p.size text) ≡ false = refuse_if-ok _ _ p3 in
    rw (object_lem, require_some-ok (p.dumps body) _ p2, small) h3

module _ (p : Platform) (e : ChannelEnvelope) (valid : check_envelope p e ≡ ok tt)
    (hex_lem : is_hex (p.hex e.signature) ≡ true)
    (unhex-hex : p.unhex (p.hex e.signature) ≡ some e.signature) where
  -- the body of a checked report is JSON whose canonical text it is
  body_of :
      (body : Json) × (p.loads e.body_text ≡ some body)
      × ((place : String) → body_json p body place ≡ ok e.body_text)
  unfolding check_envelope
  body_of =
      let (x1, p1, h1) = >>=-eq-ok _ _ valid in
      let (x2, p2, h2) = >>=-eq-ok _ _ h1 in
      let (x3, p3, h3) = >>=-eq-ok _ _ h2 in
      let (x4, p4, h4) = >>=-eq-ok _ _ h3 in
      let (x5, p5, h5) = >>=-eq-ok _ _ h4 in
      let (x6, p6, h6) = >>=-eq-ok _ _ h5 in
      let (x7, p7, h7) = >>=-eq-ok _ _ h6 in
      let (x8, p8, h8) = >>=-eq-ok _ _ h7 in
      let (x9, p9, h9) = >>=-eq-ok _ _ h8 in
      let (body, p10, h10) = >>=-eq-ok _ _ h9 in
      let (line, p11, h11) = >>=-eq-ok _ _ h10 in
      let (x12, p12, h12) = >>=-eq-ok _ _ h11 in
      let same : line ≡ e.body_text = ==_to_eq _ _ (require-ok _ _ p12) in
      (body, require_some-ok _ _ p10, λ place. body_json-place p body _ place line p11 ∙ ap ok same)

  -- A report that its constructor has checked, written as a document and read back, is the same
  -- report, where the hexadecimal form of its signature is hexadecimal and reads back as it.
  pub envelope_from-to_document :
      (doc : Json) → envelope_to_document p e ≡ some doc → envelope_from_document p doc ≡ ok e
  unfolding envelope_to_document envelope_from_document ◌>>=◌ each member_of member_names string_dec
  envelope_from-to_document doc h =
      let (body, loaded, canonical) = body_of in
      let made = some-injective (sym (rw (envelope_to_document, loaded) at h)) in
      rw (made, hex_lem, unhex-hex, canonical "body", valid) refl
