-- ===== src/Outreach/Senders.antt =====
-- Which mails `sync` stores.
use Prim.Native.String.{◌++◌ as str_append}
use backhaus_ai_backend.Base.{ℕ, ◌≡◌, Bool, true, false, some, List, ◌++◌, String, Memᴰ, any_row}
use backhaus_ai_backend.Base.Result.{Result, ok}
use backhaus_ai_backend.Base.Text.{take_chars, trim, is_empty, contains}
use backhaus_ai_backend.Store.Outreach.{email, Thread}
use backhaus_ai_backend.Outreach.{Office}
use backhaus_ai_backend.Outreach.Replies.{has_provider, Incoming, received_message}
use backhaus_ai_backend.Outreach.Mail.{
  Mail, Email, sender_address, email_or_empty, eq_ascii, is_automatic,
}

abbrev pub mail_of : Mail → String → Email → Incoming
mail_of m id e = record {
  channel = email;
  body = take_chars 12000 e.text;
  subject = m.subject;
  provider = str_append "received:" id;
  internet = e.message_id;
}

module _ (lower : String → String) (show_id : ℕ → String) (is_uuid : String → Bool)
    (fetch : String → Result Email) (now : ℕ) (ws : String) (message run : ℕ) where
  -- What holds of a mail that was stored, and where it was stored.
  pub record IsFromSupplier (ts : List Thread) (m : Mail) (o o' : Office) : Type 0 where
    pub thread : Thread
    pub waits : Memᴰ thread ts
    pub tagged : contains (str_append "[BH-" (str_append (show_id thread.id) "]")) m.subject ≡ true
    pub sender : sender_address lower m.from ≡ lower (email_or_empty thread.recipient_email)
    pub recipient : any_row (λ a. eq_ascii a thread.reply_to) m.to ≡ true
    pub id : String
    pub named : m.id ≡ some id
    pub new : any_row (has_provider (str_append "received:" id)) o.messages ≡ false
    pub mail : Email
    pub fetched : fetch id ≡ ok mail
    pub personal : any_row is_automatic mail.headers ≡ false
    pub written : is_empty (trim (take_chars 12000 mail.text)) ≡ false
    pub row : Memᴰ (received_message now message ws thread.id (mail_of m id mail)) o'.messages

  -- What `take_mail` has stored.
  record Taken (t : Thread) (m : Mail) (id : String) (o o' : Office) : Type 0 where
    mail : Email
    fetched : fetch id ≡ ok mail
    personal : any_row is_automatic mail.headers ≡ false
    written : is_empty (trim (take_chars 12000 mail.text)) ≡ false
    row : Memᴰ (received_message now message ws t.id (mail_of m id mail)) o'.messages
