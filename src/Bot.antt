-- ===== src/Bot.antt =====
-- src/bot: the dialogue of the bot after the log-in: the callback data of its buttons, the sessions,
-- and the handlers of the buttons. Texts of messages are not kept, only which answer it is.
pub mod Callbacks
pub mod Lists
pub mod Session
pub mod Actions
pub mod Location
pub mod Texts
pub mod Commands
