-- ===== src/Drivedb/Table/Usb09.antt =====
-- backends/exec/drivedb.h, lines 6769 to 6918.
use Prim.Native.String.{String}

unfoldable pub usb_text_09 : String
usb_text_09 =
    "    \"-d sat\"\n  },\n  // Verbatim\n  { \"USB: Verbatim Portable Hard Drive; Sunplus\",\n    \"0x18a5:0x0214\",\n    \"\", // 0x0112\n    \"\",\n    \"-d usbsunplus\"\n  },\n  { \"USB: Verbatim FW/USB160; Oxford OXUF934SSA-LQAG\", // USB+IEEE1394->SATA\n    \"0x18a5:0x0215\",\n    \"\", // 0x0001\n    \"\",\n    \"-d sat\"\n  },\n  { \"USB: Verbatim External Hard Drive 47519; Sunplus\", // USB->SATA\n    \"0x18a5:0x0216\",\n    \"\",\n    \"\",\n    \"-d usbsunplus\"\n  },\n  { \"USB: Verbatim Pocket Hard Drive; JMicron\", // SAMSUNG HS25YJZ/3AU10-01\n    \"0x18a5:0x0227\",\n    \"\",\n    \"\",\n    \"-d usbjmicron\" // \"-d usbjmicron,x\" does not work\n  },\n  { \"USB: Verbatim External Hard Drive; JMicron\", // 2TB\n    \"0x18a5:0x022a\",\n    \"\",\n    \"\",\n    \"-d usbjmicron\"\n  },\n  { \"USB: Verbatim Store'n'Go; JMicron\", // USB->SATA\n    \"0x18a5:0x022b\",\n    \"\", // 0x0100\n    \"\",\n    \"-d usbjmicron\"\n  },\n  { \"USB: Verbatim Pocket Hard Drive; \", // 1TB USB 3.0\n    \"0x18a5:0x0237\",\n    \"\",\n    \"\",\n    \"-d sat,12\"\n  },\n  { \"USB: Verbatim External Hard Drive; \", // USB 3.0\n    \"0x18a5:0x04(0[08]|46)\", // 00=3TB, 08=1TB, 46=500MB Mobile\n    \"\",\n    \"\",\n    \"-d sat\"\n  },\n  // Silicon Image\n  { \"USB: Vantec NST-400MX-SR; Silicon Image 5744\",\n    \"0x1a4a:0x1670\",\n    \"\",\n    \"\",\n    \"\" // unsupported\n  },\n  // Corsair\n  { \"USB: Voyager GTX; \",\n    \"0x1b1c:0x1a0e\",\n    \"\",\n    \"\",\n    \"-d sat\"\n  },\n  // SunplusIT\n  { \"USB: ; SunplusIT\",\n    \"0x1bcf:0x0c31\",\n    \"\",\n    \"\",\n    \"-d usbsunplus\"\n  },\n  // Actions Microelectronics\n  { \"USB: ; Actions AM8180\", // rebranded Realtek RTL9210\n    \"0x1de1:0xe101\",\n    \"\", // 0x2001\n    \"\",\n    \"-d sntrealtek\"\n  },\n  // Kanguru Solutions\n  { \"USB: ; \", // ICY BOX IB-256WP\n    \"0x1e1d:0x20a0\",\n    \"\", // 0x3203\n    \"\",\n    \"-d sat\" // ATA output registers missing\n  },\n  // TrekStor\n  { \"USB: TrekStor DataStation; \", // DataStation maxi light (USB 3.0)\n    \"0x1e68:0x0050\",\n    \"\", // 0x0100\n    \"\",\n    \"-d sat\"\n  },\n  // Other World Computing\n  { \"USB: OWC; \",\n    \"0x1e91:0xa([23]a5|4a7)\", // 0xa2a5 (0x0100): Envoy Pro, 0xa3a5 (0x0100): Elite Pro Dual,\n    \"\", // 0xa4a7 (0x0100): Mercury Elite Pro Quad\n    \"\",\n    \"-d sat\"\n  },\n  { \"USB: OWC Express 1M2; ASMedia ASM2464PD\",\n    \"0x1e91:0xde79\",\n    \"\", // 0x0100\n    \"\",\n    \"-d sntasmedia\"\n  },\n  // Innostor\n  { \"USB: ; Innostor IS611\", // USB3->SATA+PATA\n    \"0x1f75:0x0611\", // SMART access via PATA does not work\n    \"\",\n    \"\",\n    \"-d sat\"\n  },\n  { \"USB: ; Innostor IS621\", // USB3->SATA\n    \"0x1f75:0x0621\", // Dynex 2.5\" USB 3.0 Exclosure DX-HD302513\n    \"\",\n    \"\",\n    \"-d sat\"\n  },\n  { \"USB: ; Innostor IS888\", // USB3->SATA\n    \"0x1f75:0x0888\",\n    \"\", // 0x0034, Sharkoon SATA QuickDeck Pro USB 3.0 (unsupported)\n    \"\", // 0x0036, works with -d sat (ticket #827)\n    \"-d sat\"\n  },\n  // VIA Labs\n  { \"USB: ; VIA VL700\", // USB2/3->SATA\n    \"0x2109:0x0700\", // Diginote 2.5\" USB-3.0 HDD enclosure 80000894\n    \"\", // 0x0005\n    \"\",\n    \"-d sat,12\" // ATA output registers missing\n  },\n  { \"USB: ; VIA VL701\", // USB2/3->SATA\n    \"0x2109:0x0701\", // Intenso 2,5\" 1TB USB3\n    \"\", // 0x0107\n    \"\",\n    \"-d sat\" // ATA output registers missing\n  },\n  { \"USB: ; VIA VL711\", // USB2/3->SATA\n    \"0x2109:0x0711\",\n    \"\", // 0x0114, Mediasonic ProBox K32-SU3 (ticket #594)\n    \"\", // 0x0507, Intenso 2,5\" Memory Case 2TB USB3\n    \"-d sat\"\n  },\n  { \"USB: ; VIA VL715/6/7\", // USB2/3->SATA, USB-C->SATA\n    \"0x2109:0x071[567]\",\n    \"\", // 0x0336/0x0000\n    \"\",\n    \"-d sat\"\n  },"
