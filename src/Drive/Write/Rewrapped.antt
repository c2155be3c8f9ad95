-- ===== src/Drive/Write/Rewrapped.antt =====
-- internal/drive/crypto.go: a passphrase whose key packet is wrapped for another parent.
use proton_drive_linux_fs.Base.{String, ◌≡◌, ap, sym, ◌∙◌}
use proton_drive_linux_fs.Drive.Errors.{Result, ok, err}
use proton_drive_linux_fs.Drive.Nodes.{Store}
use proton_drive_linux_fs.Drive.Write.{Pgp, reencrypt_passphrase}
use proton_drive_linux_fs.Drive.Write.Chain.{Ends, then_lift-ok, then_outside-ok}

with_data : String → Result String → Result (String × String)
with_data content (ok key) = ok (key, content)
with_data content (err e) = err e

module _ {K W : Type 0} (pgp : Pgp K W) where
  opened_parts : K → Result (String × String) → Result (String × String)
  opened_parts kr (ok (packet, content)) = with_data content (pgp.decrypt_session_key kr packet)
  opened_parts kr (err e) = err e

  -- What a keyring opens of a passphrase: its session key, and the data that this one decrypts.
  pub opened : K → String → Result (String × String)
  opened kr text = opened_parts kr (pgp.split_message text)

  -- Where splitting a message undoes joining it, and a session key that was encrypted for a keyring
  -- decrypts with it: a passphrase that reencryptPassphrase wraps for the new parent gives to the
  -- new parent's keyring the session key and the data that the old passphrase gave to the old
  -- parent's.
  pub reencrypt_passphrase-opened :
      (old_kr new_kr : K) (text wrapped : String) (s t : Store K W)
      → ((packet content text : String)
          → pgp.join_message packet content ≡ ok text
          → pgp.split_message text ≡ ok (packet, content))
      → ((kr : K) (key packet : String) (w v : W)
          → ◌≡◌ {A = Result String × W} (pgp.encrypt_session_key kr key w) (ok packet, v)
          → pgp.decrypt_session_key kr packet ≡ ok key)
      → Ends wrapped t (reencrypt_passphrase pgp old_kr new_kr text s)
      → opened new_kr wrapped ≡ opened old_kr text
  unfolding reencrypt_passphrase opened opened_parts with_data
  reencrypt_passphrase-opened old_kr new_kr text wrapped s t splits decrypts h =
      then_lift-ok _ wrapped t _ s h (λ packets got h.
        then_lift-ok _ wrapped t _ s h (λ key known h.
          then_outside-ok _ wrapped t _ s h (λ packet w sealed h.
            ap (opened_parts new_kr) (splits packet packets.1 wrapped (ap (λ x. x.0) h))
            ∙ ap (with_data packets.1) (decrypts new_kr key packet s.world w sealed)
            ∙ sym (ap (opened_parts old_kr) got ∙ ap (with_data packets.1) known))))
