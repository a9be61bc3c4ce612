-- ===== src/Broadcaster/Frames.antt =====
-- connections/ws/websocket-broadcaster.ts, broadcast: who gets what.
use messaging_gateway.Prelude.{
  ℕ, String, Option, none, some, Bool, true, false, not, ◌&&◌, List, [], ◌∷◌, if◌then◌else◌, ◌≡◌,
  refl, All, arith, if-case,
}
use messaging_gateway.Broadcaster.{
  Client, Hub, wants, frame_for, frames, broadcast, is_read, ConnectionUpdate, read_data,
  on_connection_update,
}

abbrev pub has_code : Option (Option String) → Bool
has_code (some (some code)) = true
has_code _ = false

-- A client with the read scope has no QR code in its frame.
abbrev pub NoCode : Client × ConnectionUpdate → Type 0
NoCode (c, data_) = (is_read c.scope && has_code data_.qr) ≡ false

read_frame :
    (b : Bool) (status : String) (code : Option String)
    → let stripped : ConnectionUpdate = record { status = status; qr = some none } in
      let whole : ConnectionUpdate = record { status = status; qr = some code } in
      (b && has_code (if b then stripped else whole).qr) ≡ false
read_frame true status code = refl
read_frame false status code = refl

frame_for-NoCode :
    (c : Client) (status : String) (qr : Option (Option String))
    → let data_ : ConnectionUpdate = record { status = status; qr = qr } in
      NoCode (c, frame_for c data_ (read_data data_))
frame_for-NoCode c status none = ground arith
frame_for-NoCode c status (some code) = read_frame (is_read c.scope) status code

frames-NoCode :
    (account : Option String) (data_ : ConnectionUpdate) (cs : List Client)
    → All NoCode (frames account data_ (read_data data_) cs)
unfolding frames
frames-NoCode account data_ [] = tt
frames-NoCode account data_ (c ∷ cs) =
    if-case (All NoCode) (not c.is_open) (λ closed. frames-NoCode account data_ cs)
      (λ opened.
        if-case (All NoCode) (not (wants c account)) (λ no. frames-NoCode account data_ cs)
          (λ wanted. (frame_for-NoCode c data_.status data_.qr, frames-NoCode account data_ cs)))

-- A QR code, with which one can take over the account, never reaches a client whose key is read-only.
pub on_connection_update-NoCode :
    (fails : ℕ → Bool) (hub : Hub) (account : Option String) (data_ : ConnectionUpdate)
    → All NoCode (on_connection_update fails hub account data_).1
unfolding on_connection_update broadcast
on_connection_update-NoCode fails hub account data_ = frames-NoCode account data_ hub.clients
