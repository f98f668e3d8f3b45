-- ===== src/Drivedb/Table/Usb04.antt =====
-- backends/exec/drivedb.h, lines 6019 to 6168.
use Prim.Native.String.{String}

unfoldable pub usb_text_04 : String
usb_text_04 =
    "    \"-d sat\"\n  },\n  // Micron\n  { \"USB: Micron USB SSD; \",\n    \"0x0634:0x0655\",\n    \"\",\n    \"\",\n    \"\" // unsupported\n  },\n  // Prolific\n  { \"USB: ; Prolific PL2507\", // USB->PATA\n    \"0x067b:0x2507\",\n    \"\",\n    \"\",\n    \"-d usbjmicron,0\" // Port number is required\n  },\n  { \"USB: ; Prolific PL2571/2771/2773/2775\", // USB->SATA, USB3->SATA,\n    \"0x067b:0x(2571|277[135])\",              // USB3+eSATA->SATA, USB3->2xSATA\n    \"\",\n    \"\",\n    \"-d usbprolific\"\n  },\n  { \"USB: ; Prolific PL3507\", // USB+IEEE1394->PATA\n    \"0x067b:0x3507\",\n    \"\", // 0x0001\n    \"\",\n    \"-d usbjmicron,p\"\n  },\n  // Imation\n  { \"USB: Imation ; \", // Imation Odyssey external USB dock\n    \"0x0718:0x1000\",\n    \"\", // 0x5104\n    \"\",\n    \"-d sat\"\n  },\n  // Jess-Link\n  { \"USB: Packard Bell Carbon; SunPlus\",\n    \"0x0766:0x0017\",\n    \"\", // 0x0108\n    \"\",\n    \"-d usbsunplus\"\n  },\n  // Logitec\n  { \"USB: Logitec LGB-4BNHUC; \",\n    \"0x0789:0x0296\",\n    \"\",\n    \"\",\n    \"-d sat\"\n  },\n  // SanDisk\n  { \"USB: SanDisk; \",\n    \"0x0781:0x55(8[08]|b0)\", // 0x5580: SanDisk SDCZ80 (SanDisk pSSD)\n    \"\", // 0x55b0: Sandisk SDSSDE30-2T00 (SanDisk Portable SSD)\n    \"\",\n    \"-d sat\"\n  },\n  { \"USB: SanDisk Extreme; ASMedia ASM2362\",\n    \"0x0781:0x55ae\", // SanDisk Extreme (Western Digital SN580E 1TB)\n    \"\", // 0x3008\n    \"\",\n    \"-d sntasmedia\"\n  },\n  // Freecom\n  { \"USB: ; Innostor IS631\", // No Name USB3->SATA Enclosure\n    \"0x07ab:0x0621\",\n    \"\",\n    \"\",\n    \"-d sat\"\n  },\n  { \"USB: Freecom; \",\n    \"0x07ab:0xfc17\",\n    \"\", // 0x0100\n    \"\",\n    \"-d sat\"\n  },\n  { \"USB: Freecom Quattro 3.0; \", // USB3.0+IEEE1394+eSATA->SATA\n    \"0x07ab:0xfc77\",\n    \"\",\n    \"\",\n    \"-d sat\"\n  },\n  { \"USB: Freecom Mobile Drive XXS; JMicron\",\n    \"0x07ab:0xfc88\",\n    \"\", // 0x0101\n    \"\",\n    \"-d usbjmicron,x\"\n  },\n  { \"USB: Freecom Hard Drive XS; Sunplus\",\n    \"0x07ab:0xfc8e\",\n    \"\", // 0x010f\n    \"\",\n    \"-d usbsunplus\"\n  },\n  { \"USB: Freecom; \", // Intel labeled\n    \"0x07ab:0xfc8f\",\n    \"\", // 0x0000\n    \"\",\n    \"-d sat\"\n  },\n  { \"USB: Freecom Classic HD 120GB; \",\n    \"0x07ab:0xfccd\",\n    \"\",\n    \"\",\n    \"\" // unsupported\n  },\n  { \"USB: Freecom; JMicron\", // 0xfc85: Freecom FHD-2 Pro / JMicron JM20316\n    \"0x07ab:0xfc(85|d[6a])\",\n    \"\",\n    \"\",\n    \"-d usbjmicron\"\n  },\n  // Fast Point Technologies\n  { \"USB: ; \",\n    \"0x0850:0x00(03|31)\",\n    \"\", // 0x0100\n    \"\",\n    \"-d sat\"\n  },\n  // 0x0860 (?)\n  { \"USB: ; \",\n    \"0x0860:0x0001\",\n    \"\", // 0x0100\n    \"\",\n    \"-d sat\"\n  },\n  // Oxford Semiconductor, Ltd\n  { \"USB: ; Oxford\",\n    \"0x0928:0x0000\",\n    \"\",\n    \"\",\n    \"\" // unsupported\n  },\n  { \"USB: ; Oxford OXU921DS\",\n    \"0x0928:0x0002\",\n    \"\",\n    \"\",\n    \"\" // unsupported\n  },\n  { \"USB: ; Oxford\", // Zalman ZM-VE200\n    \"0x0928:0x0010\",\n    \"\", // 0x0304\n    \"\",\n    \"-d sat\"\n  },\n  // Toshiba\n  { \"USB: Toshiba PX1270E-1G16; Sunplus\",\n    \"0x0930:0x0b03\",\n    \"\",\n    \"\",\n    \"-d usbsunplus\""
